-- ===== src/Inference/PolicyCache.antt =====
-- `BoundedPolicyCache` of src/syndicateclaw/inference/policy_gates.py. The `OrderedDict` is a list
-- of its entries, the least recently used first. Times are microseconds.
use syndicateclaw.Base.{
  ℕ, String, not, Option, none, some, List, [], ◌∷◌, ◌++◌, ◌+◌, ◌==◌, string_eq, keep, find, leb,
  ltb, length, if◌then◌else◌,
}
use Prim.Native.Nat.{max}

pub data Answer : Type 0 where
  allowed denied : Answer

pub record Entry : Type 0 where
  pub key : String
  pub expires_at : ℕ
  pub answer : Answer

pub record PolicyCache : Type 0 where
  pub ttl : ℕ
  pub max_entries : ℕ
  pub entries : List Entry

unfoldable pub init : ℕ → ℕ → PolicyCache
init ttl max_entries = record { ttl = ttl; max_entries = max 1 max_entries; entries = [] }

abbrev pub lookup : String → List Entry → Option Entry
lookup k = find (λ e. e.key == k)

-- `del self._data[key]`
abbrev pub without : String → List Entry → List Entry
without k = keep (λ e. not (e.key == k))

unfoldable pub get : String → ℕ → PolicyCache → Option Answer × PolicyCache
get k t c = elim (lookup k c.entries) [
  | none ↦ (none, c)
  | some e ↦
      if leb e.expires_at t
      then (none, record c { entries = without k c.entries })
      else (some e.answer, record c { entries = without k c.entries ++ e ∷ [] })
]

-- `while len(self._data) > self._max: self._data.popitem(last=False)`
unfoldable pub evict : ℕ → List Entry → List Entry
evict bound [] = []
evict bound (e ∷ es) =
    let rest = evict bound es in if ltb bound (length (e ∷ es)) then rest else e ∷ es

unfoldable pub set : String → Answer → ℕ → PolicyCache → PolicyCache
unfolding evict
set k answer t c = record c {
  entries =
      evict c.max_entries
        (without k c.entries ++ record { key = k; expires_at = t + c.ttl; answer = answer } ∷ []);
}

unfoldable pub clear : PolicyCache → PolicyCache
clear c = record c { entries = [] }
