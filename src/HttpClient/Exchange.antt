-- ===== src/HttpClient/Exchange.antt =====
-- Publish against the route /updates/ of the server.
use go_metrics_harvester.Base.{
  ℕ, String, ◌≡◌, ◌⊎◌, inl, inr, refl, ap, ◌∙◌, true, Option, none, some, List, if◌then◌else◌,
  Outcome, ok, err, panic, All, Bool, false, Error, wrap,
}
use mathlib.Core.Path.{subst}
use Prim.Native.String
use go_metrics_harvester.Metric.{Metric, Strconv}
use go_metrics_harvester.Metric.Json.{Json}
use go_metrics_harvester.Retry.Attempts.{do_fn_first, do_fn_fails}
use go_metrics_harvester.Service.{Repository}
use go_metrics_harvester.Service.Rules.{IsAccepted}
use go_metrics_harvester.Http.{Request, Reply}
use go_metrics_harvester.Middleware.Gzip.{Unpacks}
use go_metrics_harvester.Middleware.Subnet.{InSubnet}
use go_metrics_harvester.Agent.Address.{real_ip}
use go_metrics_harvester.HttpClient.{
  Message, Transport, Client, compress, message, seal, sent, attempt, publish, tried,
}
use go_metrics_harvester.HttpClient.Delivery.{Delivers}
use go_metrics_harvester.Server.{Web, updates_handler_json, batch_stored, json_error}
use go_metrics_harvester.Server.Replies.{updates_handler_json_cases}
use go_metrics_harvester.Server.Routes.{Libraries, Settings, handle, updates}
use go_metrics_harvester.HttpClient.Passage.{Paired, updates_mdw_pass}

abbrev pub crashes : {A : Type 0} → Outcome A → Bool
crashes (ok _) = false
crashes (err _) = false
crashes panic = true

-- What the sender of a request sees: net/http aborts the connection of a handler that panics.
abbrev pub delivered : {S : Type 0} → Error → Reply S → Option Error × S
delivered e reply = (if reply.panicked then some e else none, reply.state)

module _ {F W : Type 0} (l : Libraries) (web : Web F) (conv : Strconv F)
    (storage : Repository F W) where
  batch_stored-crashes :
      (p : Outcome (Unit {0}) × storage.State)
      → ((batch_stored l.net web conv storage p).state ≡ p.1)
        × ((batch_stored l.net web conv storage p).panicked ≡ crashes p.0)
  unfolding json_error
  batch_stored-crashes (ok _, s) = (refl, refl)
  batch_stored-crashes (err e, s) = (refl, refl)
  batch_stored-crashes (panic, s) = (refl, refl)

  stored_batch :
      (req : Request) (s : storage.State) (m : List (Metric F))
      → web.decode_list req.body ≡ inr m
      → All IsAccepted m
      → ((updates_handler_json l.net web conv storage req s).state ≡ (storage.update m s).1)
        × ((updates_handler_json l.net web conv storage req s).panicked
            ≡ crashes (storage.update m s).0)
  stored_batch req s m read fine = elim (updates_handler_json_cases l.net web conv storage req s) [
    | inl (e, bad, _) ↦ cc (read, bad)
    | inr (me, read', inl (unfit, _)) ↦
        let e : m ≡ me = cc (read, read') in absurd (unfit (subst (All IsAccepted) e fine))
    | inr (me, read', inr (_, stored)) ↦
        let e : me ≡ m = cc (read, read') in
        let (state, panicked) = batch_stored-crashes (storage.update me s) in
        (
          ap (λ r. r.state) stored ∙ state ∙ ap (λ b. (storage.update b s).1) e,
          ap (λ r. r.panicked) stored ∙ panicked ∙ ap (λ b. crashes (storage.update b s).0) e,
        )
  ]

  -- A client and a server whose keys belong together, over a transport that hands each message to
  -- the server's route, whose storage is all of the world that it changes. A sender gets an error
  -- only where the handler panics.
  pub record IsConnected (t : Transport l.rsa storage.State) (c : Client) (cfg : Settings)
      : Type 0 where
    pub same_key : c.key ≡ cfg.key
    pub paired : Paired l t c cfg c.public_key cfg.private_key
    pub unpacks : Unpacks l.gzip
    pub names_gzip : l.gzip.contains "gzip" "gzip" ≡ true
    pub valid_url : t.new_request (String.◌++◌ c.address "/updates/") ≡ none
    pub arrive : Message → Request
    pub delivers : (m : Message) → Delivers m (arrive m)
    pub aborted : Error
    pub sends :
        (m : Message) (s : storage.State)
        → t.send m s ≡ delivered aborted (handle l cfg web conv storage updates (arrive m) s)

  module _ (t : Transport l.rsa storage.State) (c : Client) (cfg : Settings) (j : Json F) where
    sent_if :
        (b : Bool) (e : Error) (s : storage.State)
        → sent l.net l.signing l.rsa t c (if b then some e else none, s)
          ≡ (if b then some (wrap "send request" e) else none, s)
    sent_if true e s = refl
    sent_if false e s = refl

    -- One attempt: Update is called once, and the sender gets an error only where it panics.
    attempt-update :
        (m : List (Metric F)) (s : storage.State) (text buf : List ℕ) (r r' : l.rsa.Random)
        (addr : String) (con : IsConnected t c cfg)
        → (cfg.trusted_subnet ≡ "") ⊎ InSubnet l.addresses cfg.trusted_subnet addr
        → real_ip (t.interfaces s) ≡ inr addr
        → web.decode_list (inr text) ≡ inr m
        → All IsAccepted m
        → seal l.net l.signing l.rsa t c c.public_key text r ≡ some (ok buf, r')
        → attempt l.net l.signing l.rsa t c (compress l.gzip buf) s ≡ (
          if crashes (storage.update m s).0 then some (wrap "send request" con.aborted) else none,
          (storage.update m s).1,
        )
    unfolding attempt handle
    attempt-update m s text buf r r' addr con inside ip read fine made =
        let packet = message l.net l.signing l.rsa t c addr (compress l.gzip buf) in
        let req = con.arrive packet in
        let effect =
          updates_mdw_pass l t c cfg (updates_handler_json l.net web conv storage) req s addr text
            buf r r' con.same_key con.paired con.unpacks con.names_gzip inside made
            (con.delivers packet) in
        let (state, panicked) = stored_batch (record req { body = inr text }) s m read fine in
        rw (con.valid_url, ip, con.sends, effect.panics, panicked, effect.states, state, attempt)
          (sent_if (crashes (storage.update m s).0) con.aborted (storage.update m s).1)

    -- What Publish sends reaches the repository: between a client and a server that are connected
    -- with keys that belong together, a batch of metrics that the rules accept, whose text the
    -- server decodes to the batch, which is sent from an address that the trusted subnet, if one is
    -- configured, covers, and on which Update does not panic, is stored exactly once, at the first
    -- attempt, by the repository's Update. Publish then returns no error, also if Update failed.
    pub publish-update :
        (m : List (Metric F)) (s : storage.State) (text buf : List ℕ) (r r' : l.rsa.Random)
        (addr : String)
        → IsConnected t c cfg
        → (cfg.trusted_subnet ≡ "") ⊎ InSubnet l.addresses cfg.trusted_subnet addr
        → real_ip (t.interfaces s) ≡ inr addr
        → j.encode m ≡ inr text
        → web.decode_list (inr text) ≡ inr m
        → All IsAccepted m
        → crashes (storage.update m s).0 ≡ false
        → seal l.net l.signing l.rsa t c c.public_key text r ≡ some (ok buf, r')
        → publish l.net l.signing l.rsa t c j l.gzip m (r, s)
          ≡ some (ok tt, (r', (storage.update m s).1))
    unfolding publish
    publish-update m s text buf r r' addr con inside ip e read fine safe made =
        let first = attempt-update m s text buf r r' addr con inside ip read fine made in
        rw (e, made, publish)
          (ap (λ p. some (tried l.net l.signing l.rsa t c r' p))
            (do_fn_first _ t.sleep s _ (rw safe at first)))

    -- Where Update panics, Publish repeats what is half done: between a client and a server that are
    -- connected with keys that belong together, with a batch that the rules accept and whose text the
    -- server decodes to it, an agent that finds one address in every state, which the trusted subnet
    -- covers if one is configured, and a storage that nothing else changes while Publish sleeps, if
    -- Update of the batch panics three times, each time in the state that the call before has left,
    -- then Publish returns the error of the connection and leaves the storage as the third of these
    -- calls left it, with what each of them had stored before it panicked.
    pub publish-update_panics :
        (m : List (Metric F)) (s s₁ s₂ s₃ : storage.State) (text buf : List ℕ) (r r' : l.rsa.Random)
        (addr : String) (con : IsConnected t c cfg)
        → (cfg.trusted_subnet ≡ "") ⊎ InSubnet l.addresses cfg.trusted_subnet addr
        → ((s' : storage.State) → real_ip (t.interfaces s') ≡ inr addr)
        → ((n : ℕ) (s' : storage.State) → t.sleep n s' ≡ s')
        → j.encode m ≡ inr text
        → web.decode_list (inr text) ≡ inr m
        → All IsAccepted m
        → storage.update m s ≡ (panic, s₁)
        → storage.update m s₁ ≡ (panic, s₂)
        → storage.update m s₂ ≡ (panic, s₃)
        → seal l.net l.signing l.rsa t c c.public_key text r ≡ some (ok buf, r')
        → publish l.net l.signing l.rsa t c j l.gzip m (r, s)
          ≡ some (err (wrap "error while publish" (wrap "send request" con.aborted)), (r', s₃))
    unfolding publish
    publish-update_panics m s s₁ s₂ s₃ text buf r r' addr con inside ip still e read fine p₁ p₂ p₃
          made =
        let try = λ (a b : storage.State) (p : storage.update m a ≡ (panic, b)).
          let step = attempt-update m a text buf r r' addr con inside (ip a) read fine made in
          rw p at step in
        let fn = attempt l.net l.signing l.rsa t c (compress l.gzip buf) in
        rw (e, made, publish)
          (ap (λ p. some (tried l.net l.signing l.rsa t c r' p))
            (do_fn_fails fn t.sleep s _ _ _ _ _ _ (try s s₁ p₁) (ap fn (still 1 s₁) ∙ try s₁ s₂ p₂)
                (ap fn (still 3 s₂) ∙ try s₂ s₃ p₃)
              ∙ ap {B = Option Error × storage.State}
                  (λ w. (some (wrap "send request" con.aborted), w)) (still 5 s₃)))
