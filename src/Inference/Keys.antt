-- ===== src/Inference/Keys.antt =====
-- The sort keys of the router are total orders.
use syndicateclaw.Inference.PolicyCache.{Answer}
use syndicateclaw.Base.{ℕ}
use syndicateclaw.Base.{
  String, ◌≡◌, Bool, true, false, ◌==◌, string_eq, eq_iff, if◌then◌else◌, arith,
}
use syndicateclaw.Order.{IsOrder}
use syndicateclaw.Text.{str_leb, str_leb-IsOrder, str_leb_antisym}
use syndicateclaw.Inference.Router.{Floats, Request, Registry, Routing, Scored}
use syndicateclaw.Inference.Route.{scored_le}

-- the pairs (provider, model) in their order
abbrev pair_le : String → String → String → String → Bool
pair_le p m q n = if p == q then str_leb m n else str_leb p q

pair_le_total : (p m q n : String) → pair_le p m q n ≡ false → pair_le q n p m ≡ true
pair_le_total p m q n h =
    ground (arith, eq_iff p q, eq_iff q p, str_leb-IsOrder.total m n, str_leb-IsOrder.total p q)

pair_le_trans :
    (p m q n r o : String)
    → pair_le p m q n ≡ true
    → pair_le q n r o ≡ true
    → pair_le p m r o ≡ true
pair_le_trans p m q n r o h k = ground (
  arith,
  eq_iff p q,
  eq_iff q r,
  eq_iff p r,
  str_leb-IsOrder.trans m n o,
  str_leb-IsOrder.trans p q r,
  str_leb_antisym p q,
)

module _ (N : Floats) (routing : Routing N) (request : Request) (registry : Registry) (t : ℕ)
    (gate_model : String → String → Answer) (policy_key : String → String → String) where
  abbrev key_le : Scored N → Scored N → Bool
  key_le = scored_le N routing request registry t gate_model policy_key

  key_le_total : (a b : Scored N) → key_le a b ≡ false → key_le b a ≡ true
  unfolding scored_le
  key_le_total a b h = ground (
    arith,
    N.order.total a.score b.score,
    N.order.total b.score a.score,
    pair_le_total a.provider_id a.model_id b.provider_id b.model_id,
  )

  key_le_trans : (a b c : Scored N) → key_le a b ≡ true → key_le b c ≡ true → key_le a c ≡ true
  unfolding scored_le
  key_le_trans a b c h k = ground (
    arith,
    N.order.trans a.score b.score c.score,
    N.order.trans c.score b.score a.score,
    N.order.trans b.score c.score a.score,
    N.order.trans c.score a.score b.score,
    pair_le_trans a.provider_id a.model_id b.provider_id b.model_id c.provider_id c.model_id,
  )

  pub scored_le-IsOrder : IsOrder key_le
  scored_le-IsOrder = record { total = key_le_total; trans = key_le_trans }
