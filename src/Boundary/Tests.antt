-- ===== src/Boundary/Tests.antt =====
-- The boundary on concrete chains, contexts and permits.
use syndicateclaw.Boundary.Durable.{records}
use syndicateclaw.Boundary.Chain.{next_entry}
use syndicateclaw.Boundary.Torn.{torn_file, torn_append}
use syndicateclaw.Boundary.Permits.{validate, same_binding}
use syndicateclaw.Boundary.Authorize.{local_reason, emit}
use syndicateclaw.Base.{
  ℕ, ◌≡◌, refl, ap, Bool, true, false, ◌&&◌, none, some, [], ◌∷◌, arith, ◌↔◌, ◌+◌, ◌≤◌, nat_beq,
  nat_eq, List, ◌==◌, string_eq, if◌then◌else◌,
}
use syndicateclaw.Boundary.Chain.{Hashing, AppendOnly, append, verify_from, verify, last_hash}
use syndicateclaw.Boundary.Evidence.{CollisionFree}
use syndicateclaw.Boundary.Durable.{append_line, verify_file, verify_lines}
use syndicateclaw.Boundary.Refinement.{file_of, Holds, number_of, append_line-Holds}
use syndicateclaw.Boundary.Authority.{Event, AuthorityContext, ExpectedBinding, allow}
use syndicateclaw.Boundary.Authorize.{Boundary, authorize, binding_of}
use syndicateclaw.Boundary.Opens.{Granted, authorize_iff, Recorded, authorize-Recorded}
use syndicateclaw.Boundary.Permits.{PermitState, InMemory, in_memory}
use syndicateclaw.Boundary.SingleUse.{Request, allows, single_use_once}

-- Hashes that are what they were made of.
data Hash : Type 0 where
  root : Hash
  chained : Hash → ℕ → ℕ → Hash

abbrev hash_eqb : Hash → Hash → Bool
hash_eqb root root = true
hash_eqb (chained p e m) (chained q f n) = hash_eqb p q && (nat_beq e f && nat_beq m n)
hash_eqb _ _ = false

hash_eqb_sound : (a b : Hash) → hash_eqb a b ≡ true → a ≡ b
hash_eqb_sound root root h = refl
hash_eqb_sound root (chained q f n) h = ground arith
hash_eqb_sound (chained p e m) root h = ground arith
hash_eqb_sound (chained p e m) (chained q f n) h =
    let heads : p ≡ q = hash_eqb_sound p q (ground arith) in
    let events : e ≡ f = ground arith in
    let numbers : m ≡ n = ground arith in λ i. chained (heads i) (events i) (numbers i)

hash_eqb_refl : (a : Hash) → hash_eqb a a ≡ true
hash_eqb_refl root = refl
hash_eqb_refl (chained p e m) = ground (arith, hash_eqb_refl p)

hash_eqb_iff : (a b : Hash) → (hash_eqb a b ≡ true) ↔ (a ≡ b)
hash_eqb_iff a b = (hash_eqb_sound a b, λ e. rw e (hash_eqb_refl b))

abbrev numbers : Hashing ℕ
numbers = record {
  H = Hash;
  hash_eq = record { eqb = hash_eqb; eqb_iff = hash_eqb_iff };
  genesis = root;
  digest = chained;
}

abbrev behind : Hash → Hash
behind root = root
behind (chained p e n) = p

abbrev event_in : Hash → ℕ
event_in root = 0
event_in (chained p e n) = e

abbrev number_in : Hash → ℕ
number_in root = 0
number_in (chained p e n) = n

numbers-CollisionFree : CollisionFree numbers
numbers-CollisionFree = record {
  separates = λ p q e f m n h. (ap behind h, ap event_in h, ap number_in h);
}

abbrev no_records : AppendOnly numbers
no_records = record { records = []; fail = false }

abbrev one_record : AppendOnly numbers
one_record = record {
  records =
      record { event = 7; sequence = 0; previous_hash = root; event_hash = chained root 7 0 } ∷ [];
  fail = false;
}

abbrev outage : AppendOnly numbers
outage = record one_record { fail = true }

one_record_verifies : verify numbers one_record ≡ true
unfolding verify verify_from
one_record_verifies = refl

outage_verifies : verify numbers outage ≡ true
unfolding verify verify_from
outage_verifies = refl

append_one : (append numbers 7 no_records).1 ≡ one_record
unfolding append last_hash
append_one = refl

-- Hashes of another digest, which keeps only the event.
abbrev events_only : Hashing ℕ
events_only = record { H = ℕ; hash_eq = nat_eq; genesis = 0; digest = λ p e n. e }

abbrev one_event : AppendOnly events_only
one_event = record {
  records = record { event = 7; sequence = 0; previous_hash = 0; event_hash = 7 } ∷ [];
  fail = false;
}

one-Holds : Holds numbers events_only (file_of numbers one_record) one_event
unfolding verify_file verify_lines verify verify_from
one-Holds = record {
  chain = one_record;
  whole = refl;
  events = refl;
  available = refl;
  file_valid = refl;
  chain_valid = refl;
}

append_line-Holds_example :
    (number_of numbers (append_line numbers 8 (file_of numbers one_record)).0
      ≡ number_of events_only (append events_only 8 one_event).0)
    × Holds numbers events_only
        (append_line numbers 8 (file_of numbers one_record)).1
        (append events_only 8 one_event).1
append_line-Holds_example =
    append_line-Holds numbers events_only 8 (file_of numbers one_record) one_event one-Holds

-- Numbers in place of hashes.
abbrev counted : Hashing Event
counted = record { H = ℕ; hash_eq = nat_eq; genesis = 0; digest = λ p e n. p + 1 }

abbrev expected : ExpectedBinding
expected = record {
  actor = "dev";
  tenant_id = "t1";
  project_id = "p1";
  workspace_id = "w1";
  tool_identity = "http";
  action = "execute";
  resource_scope = "";
  approval_id = none;
  require_approval = false;
}

abbrev context : AuthorityContext
context = record {
  authority_reference = some "permit";
  actor = some "dev";
  tenant_id = some "t1";
  project_id = some "p1";
  workspace_id = some "w1";
  tool_identity = some "http";
  action = some "execute";
  resource_scope = none;
  approval_id = none;
  correlation_id = none;
  gate_evidence_reference = none;
  requires_gate_evidence = false;
}

abbrev permit : PermitState
permit = record {
  binding = binding_of context expected;
  status = allow;
  single_use = true;
  used = false;
}

abbrev upstream : InMemory
upstream = record {
  permits = λ r. if r == "permit" then some permit else none;
  outage = false;
  calls = [];
}

abbrev boundary : Boundary counted InMemory
boundary = record { upstream = upstream; audit = record { records = []; fail = false } }

authorize_once :
    (authorize counted (in_memory "now") (some context) expected "now" boundary).0.allowed ≡ true
unfolding authorize local_reason emit append validate same_binding
authorize_once = refl

authorize_iff_example :
    ((authorize counted (in_memory "now") (some context) expected "now" boundary).0.allowed ≡ true)
    ↔ Granted counted (in_memory "now") context expected boundary
authorize_iff_example = authorize_iff counted (in_memory "now") context expected "now" boundary

authorize-Recorded_example :
    Recorded counted
      (in_memory "now")
      (authorize counted (in_memory "now") (some context) expected "now" boundary).0
      boundary.audit
      (authorize counted (in_memory "now") (some context) expected "now" boundary).1.audit
authorize-Recorded_example =
    authorize-Recorded counted (in_memory "now") (some context) expected "now" boundary

abbrev request : Request
request = record { context = some context; expected = expected; now = "now" }

abbrev twice : List Request
twice = request ∷ request ∷ []

single_use_once_example :
    (allows counted "permit" twice boundary ≤ 1)
    × (permit.used ≡ true → allows counted "permit" twice boundary ≡ 0)
single_use_once_example = single_use_once counted "permit" twice boundary permit refl refl

allows_first : allows counted "permit" twice boundary ≡ 1
unfolding allows authorize local_reason emit append validate same_binding
allows_first = refl

torn_append_example :
    ((append_line numbers 8 (torn_file numbers one_record.records)).0
      ≡ some (1, (next_entry numbers 8 one_record.records).event_hash))
    × (records numbers (append_line numbers 8 (torn_file numbers one_record.records)).1.lines
        ≡ one_record.records)
    × ((append_line numbers 9 (append_line numbers 8 (torn_file numbers one_record.records)).1).0
        ≡ some (1, (next_entry numbers 9 one_record.records).event_hash))
torn_append_example = torn_append numbers 8 9 one_record.records
