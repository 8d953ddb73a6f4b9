-- ===== src/Service/InMemory.antt =====
-- The memory storage as a repository of the service.
use go_metrics_harvester.Base.{
  String, ◌≡◌, refl, sym, ap, ◌∙◌, some, List, ok, other, pair-of_ok, inl, eq_iff, err, arith,
}
use go_metrics_harvester.Metric.{Metric, gauge, counter}
use go_metrics_harvester.Metric.Json.{Json}
use go_metrics_harvester.Memory
use go_metrics_harvester.Memory.{Storage}
use go_metrics_harvester.Memory.Steps.{merged, get-upsert_self, upsert-eq-store}
use go_metrics_harvester.Memory.Safety.{set_of_HasField, HasField}
use go_metrics_harvester.Memory.Typed.{IsTyped, IsTypedStore, merged-IsTyped, upsert_returns}
use go_metrics_harvester.Service.Rules.{
  IsAccepted, set-of_accepted, get-of_found, get-of_other_type,
}
use go_metrics_harvester.Service.{Repository, get, set}

module _ {F W : Type 0} (visit : List (Metric F) → List (Metric F)) (json : Json F) where
  abbrev pub memory : Repository F W
  memory = record {
    State = Storage F;
    set = Memory.set;
    get = λ id s. (ok (Memory.get id s), s);
    list = λ s. (ok (Memory.list visit s), s);
    persist = λ dest (s, w). let (r, w') = Memory.persist visit json dest s w in (r, (s, w'));
    ping = Memory.ping;
    update = Memory.update;
  }

module _ {F : Type 0} (W : Type 0) (visit : List (Metric F) → List (Metric F)) (json : Json F) where
  abbrev repository : Repository F W
  repository = memory {W = W} visit json

  -- In a store where every name keeps its type, Set returns for an accepted metric, and Get then
  -- returns for its name and type the metric itself, under a new name, and otherwise the metric
  -- that was there with the new one merged in.
  pub get-set :
      (types : String → String) (m : Metric F) (s : Storage F)
      → IsTypedStore types s
      → IsTyped types m
      → IsAccepted m
      → (w : Metric F) × (s' : Storage F) × (merged m (Memory.get m.id s) ≡ ok w)
        × (set repository m s ≡ (ok tt, s'))
        × (get repository m.id m.mtype s' ≡ (ok w, s'))
  get-set types m s hs hm a =
      let (w, p, id, hw) = merged-IsTyped types m s hs hm in
      let returns = upsert_returns types m s hs hm in
      let (x, p', g) = get-upsert_self m s returns in
      let s' = (Memory.upsert m s).1 in
      let same : x ≡ w = cc (p, p') in
      (
        w,
        s',
        p,
        set-of_accepted repository m s a ∙ set_of_HasField m s hm.field ∙ pair-of_ok _ returns,
        get-of_found repository m.id m.mtype w s' s' a.typed
            (ap (λ o. (ok o, s')) (g ∙ ap some same)) (hw.kind ∙ ap types id ∙ sym hm.kind),
      )

  merge_of_value :
      (m v : Metric F) (x : F)
      → m.mtype ≡ gauge
      → m.value ≡ some x
      → Memory.merge v m ≡ ok (record v { value = some x })
  unfolding Memory.merge
  merge_of_value m v x g has = ground (arith, eq_iff m.mtype gauge)

  gauge-HasField : (m : Metric F) (x : F) → m.mtype ≡ gauge → m.value ≡ some x → HasField m
  gauge-HasField m x g has = record {
    counts = λ p. ground (arith, eq_iff gauge counter);
    measures = λ _ n. cc (has, n);
  }

  -- A gauge that is set under a counter's name is stored beside the delta, the metric stays a
  -- counter, and the gauge that was just set is not found.
  pub get-set_of_other_type :
      (m v : Metric F) (x : F) (s : Storage F)
      → IsAccepted m
      → m.mtype ≡ gauge
      → m.value ≡ some x
      → Memory.get m.id s ≡ some v
      → v.mtype ≡ counter
      → (s' : Storage F) × (set repository m s ≡ (ok tt, s'))
        × (Memory.get m.id s' ≡ some (record v { value = some x }))
        × (get repository m.id gauge s' ≡ (err (other "not found"), s'))
  get-set_of_other_type m v x s a g has found c =
      let w : Metric F = record v { value = some x } in
      let p : merged m (Memory.get m.id s) ≡ ok w =
        ap (merged m) found ∙ merge_of_value m v x g has in
      let returns : (Memory.upsert m s).0 ≡ ok tt = rw (upsert-eq-store, p) refl in
      let (y, p', got) = get-upsert_self m s returns in
      let s' = (Memory.upsert m s).1 in
      let read : Memory.get m.id s' ≡ some w = cc (p, p', got) in
      (
        s',
        set-of_accepted repository m s a
            ∙ set_of_HasField m s (gauge-HasField m x g has)
            ∙ pair-of_ok _ returns,
        read,
        get-of_other_type repository m.id gauge w s' s' (inl refl) (ap (λ o. (ok o, s')) read)
            (λ q. ground (arith, eq_iff gauge counter)),
      )
