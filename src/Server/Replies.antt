-- ===== src/Server/Replies.antt =====
-- What the handlers answer, and when they reach the storage.
use go_metrics_harvester.Base.{
  ℕ, String, ◌≡◌, ◌⊎◌, inl, inr, refl, ap, false, Sum-cases, Option-cases, none, some, List, [],
  ◌∷◌, eq_iff, arith, All, Error,
}
use go_metrics_harvester.Metric.{Metric, Strconv, gauge, counter}
use go_metrics_harvester.Service.{Repository}
use go_metrics_harvester.Service.Rules.{IsAccepted, update-of_accepted}
use go_metrics_harvester.Http.{Request, Reply, Net, status}
use go_metrics_harvester.Server.{Web, json_error, first_bad, updates_handler_json, batch_stored}

module _ {F W : Type 0} (net : Net) (web : Web F) (conv : Strconv F)
    (storage : Repository F W) where
  first_bad-none :
      (me : List (Metric F)) → first_bad net web conv storage me ≡ none → All IsAccepted me
  unfolding first_bad
  first_bad-none [] e = tt
  first_bad-none (m ∷ me) e = (
    record {
      named = λ p. ground (arith, eq_iff m.id "");
      typed = ground (arith, eq_iff m.mtype gauge, eq_iff m.mtype counter);
    },
    first_bad-none me (ground arith),
  )

  first_bad-of_accepted :
      (me : List (Metric F)) → All IsAccepted me → first_bad net web conv storage me ≡ none
  unfolding first_bad
  first_bad-of_accepted [] h = refl
  first_bad-of_accepted (m ∷ me) (a, h) = ground (
    arith,
    first_bad-of_accepted me h,
    a.named,
    a.typed,
    eq_iff m.id "",
    eq_iff m.mtype gauge,
    eq_iff m.mtype counter,
  )

  first_bad-some :
      (me : List (Metric F)) (msg : String) (code : ℕ)
      → first_bad net web conv storage me ≡ some (msg, code)
      → (code ≡ 404) ⊎ (code ≡ 400)
  unfolding first_bad
  first_bad-some [] msg code e = cc e
  first_bad-some (m ∷ me) msg code e = ground (arith, first_bad-some me msg code)

  -- A refusal by JSONError, with the state as it was.
  pub record IsRefused (codes : ℕ → Type 0) (s : storage.State) (reply : Reply storage.State)
      : Type 0 where
    pub code : ℕ
    pub listed : codes code
    pub answered : status reply.calls ≡ code
    pub kept : reply.state ≡ s
    pub calm : reply.panicked ≡ false

  refused :
      (codes : ℕ → Type 0) (s : storage.State) (msg : String) (code : ℕ)
      → codes code
      → IsRefused codes s (json_error net web conv storage msg code s)
  unfolding json_error status
  refused codes s msg code c = record {
    code = code;
    listed = c;
    answered = refl;
    kept = refl;
    calm = refl;
  }

  -- A batch whose text does not decode is answered with 400, one with a metric that the rules refuse
  -- with 404 or 400, and neither changes the storage; every other batch goes to the storage whole.
  pub updates_handler_json_cases :
      (req : Request) (s : storage.State)
      → ((e : Error) × (web.decode_list req.body ≡ inl e)
          × IsRefused (λ c. c ≡ 400) s (updates_handler_json net web conv storage req s))
        ⊎ ((me : List (Metric F)) × (web.decode_list req.body ≡ inr me)
            × (((¬ All IsAccepted me)
                  × IsRefused
                      (λ c. (c ≡ 404) ⊎ (c ≡ 400))
                      s
                      (updates_handler_json net web conv storage req s))
                ⊎ (All IsAccepted me
                    × (updates_handler_json net web conv storage req s
                        ≡ batch_stored net web conv storage (storage.update me s)))))
  unfolding updates_handler_json
  updates_handler_json_cases req s = elim (Sum-cases (web.decode_list req.body)) [
    | inl (e, bad) ↦
        inl (e, bad, rw (bad, updates_handler_json) (refused _ s (web.message e) 400 refl))
    | inr (me, read) ↦ elim (Option-cases (first_bad net web conv storage me)) [
      | inl fine ↦
          let accepted = first_bad-none me fine in
          inr (
            me,
            read,
            inr (
              accepted,
              rw (read, fine, updates_handler_json)
                  (ap (batch_stored net web conv storage)
                    (update-of_accepted storage me s accepted)),
            ),
          )
      | inr ((msg, code), found) ↦ inr (
        me,
        read,
        inl (
          λ h. cc (found, first_bad-of_accepted me h),
          rw (read, found, updates_handler_json)
              (refused _ s msg code (first_bad-some me msg code found)),
        ),
      )
    ]
  ]
