-- ===== src/Middleware/Gzip.antt =====
-- internal/compress/compress.go: replies are compressed and bodies decompressed as the headers ask.
use go_metrics_harvester.Base.{
  ℕ, String, ◌≡◌, ◌⊎◌, inl, inr, refl, sym, ap, ◌∙◌, true, false, Bool, Bool-cases, List, [], ◌∷◌,
  ◌++◌, map, ltb, if◌then◌else◌, Error,
}
use mathlib.Core.List.{append_assoc}
use go_metrics_harvester.Http.{
  Call, set_header, write_header, write, Request, Reply, Handler, Middleware, Body, answer, written,
}

-- What the program takes from compress/gzip and strings. A writer has a state; a Write and a Close
-- pass bytes on in a number of writes. `open_reader` is gzip.NewReader and what reading it gives.
pub record Gzip : Type 1 where
  pub Writer : Type 0
  pub new_writer : Writer
  pub write_chunk : Writer → List ℕ → List (List ℕ) × Writer
  pub close_writer : Writer → List (List ℕ)
  pub open_reader : Body → Error ⊎ Body
  pub contains : String → String → Bool

-- The bytes of some chunks.
unfoldable pub concat : List (List ℕ) → List ℕ
concat [] = []
concat (b ∷ bs) = b ++ concat bs

module _ (gz : Gzip) where
  -- The calls on a compressing writer, as calls on the writer below it, up to its Close.
  unfoldable pub compress_calls : gz.Writer → List Call → List Call
  compress_calls z [] = map write (gz.close_writer z)
  compress_calls z (set_header k v ∷ calls) = set_header k v ∷ compress_calls z calls
  compress_calls z (write_header code ∷ calls) =
      let rest = compress_calls z calls in
      if ltb code 300
      then set_header "Content-Encoding" "gzip" ∷ write_header code ∷ rest
      else write_header code ∷ rest
  compress_calls z (write p ∷ calls) =
      let (chunks, z') = gz.write_chunk z p in map write chunks ++ compress_calls z' calls

  abbrev pub compress : {S : Type 0} → Reply S → Reply S
  compress reply = record reply {
    calls = set_header "Content-Encoding" "gzip" ∷ compress_calls gz.new_writer reply.calls;
  }

  -- A body that is no gzip stream is refused on the writer below, and the compressing writer is
  -- still closed.
  abbrev unreadable : {S : Type 0} → Bool → S → Reply S
  unreadable packs s =
      if packs
      then answer
          (set_header "Content-Encoding" "gzip"
            ∷ write_header 500
            ∷ map write (gz.close_writer gz.new_writer))
          s
      else answer (write_header 500 ∷ []) s

  abbrev pub packed : {S : Type 0} → Bool → Handler S → Handler S
  packed packs h req s = if packs then compress (h req s) else h req s

  abbrev opened : {S : Type 0} → Bool → Handler S → Request → S → Error ⊎ Body → Reply S
  opened packs h req s (inl e) = unreadable packs s
  opened packs h req s (inr body) = packed packs h (record req { body = body }) s

  unfoldable pub with_gzip : {S : Type 0} → Middleware S
  with_gzip h req s =
      let packs = gz.contains (req.header "Accept-Encoding") "gzip" in
      if gz.contains (req.header "Content-Encoding") "gzip"
      then opened packs h req s (gz.open_reader req.body)
      else packed packs h req s

  -- The bytes that a compressing writer makes of some writes, its Close included.
  unfoldable pub stream : gz.Writer → List (List ℕ) → List ℕ
  stream z [] = concat (gz.close_writer z)
  stream z (b ∷ bs) = let (chunks, z') = gz.write_chunk z b in concat chunks ++ stream z' bs

  -- The writes among some calls.
  pub chunks_of : List Call → List (List ℕ)
  chunks_of [] = []
  chunks_of (set_header _ _ ∷ calls) = chunks_of calls
  chunks_of (write_header _ ∷ calls) = chunks_of calls
  chunks_of (write b ∷ calls) = b ∷ chunks_of calls

  written-map_write :
      (bs : List (List ℕ)) (calls : List Call)
      → written (map write bs ++ calls) ≡ concat bs ++ written calls
  unfolding written concat
  written-map_write [] calls = refl
  written-map_write (b ∷ bs) calls =
      ap (λ l. b ++ l) (written-map_write bs calls)
      ∙ sym (append_assoc b (concat bs) (written calls))

  written-writes : (bs : List (List ℕ)) → written (map write bs) ≡ concat bs
  unfolding written concat
  written-writes [] = refl
  written-writes (b ∷ bs) = ap (λ l. b ++ l) (written-writes bs)

  written-compress_calls :
      (z : gz.Writer) (calls : List Call)
      → written (compress_calls z calls) ≡ stream z (chunks_of calls)
  unfolding written compress_calls stream chunks_of
  written-compress_calls z [] = written-writes (gz.close_writer z)
  written-compress_calls z (set_header k v ∷ calls) = written-compress_calls z calls
  written-compress_calls z (write_header code ∷ calls) = elim (Bool-cases (ltb code 300)) [
    | inl low ↦ rw low (written-compress_calls z calls)
    | inr high ↦ rw high (written-compress_calls z calls)
  ]
  written-compress_calls z (write p ∷ calls) =
      let (chunks, z') = gz.write_chunk z p in
      written-map_write chunks (compress_calls z' calls)
      ∙ ap (λ l. concat chunks ++ l) (written-compress_calls z' calls)

  concat-chunks_of : (calls : List Call) → concat (chunks_of calls) ≡ written calls
  unfolding written chunks_of concat
  concat-chunks_of [] = refl
  concat-chunks_of (set_header k v ∷ calls) = concat-chunks_of calls
  concat-chunks_of (write_header code ∷ calls) = concat-chunks_of calls
  concat-chunks_of (write p ∷ calls) = ap (λ l. p ++ l) (concat-chunks_of calls)

  -- What the program relies on: a reader gives back what was written, in whatever pieces.
  pub record Unpacks : Type 0 where
    pub open-stream :
        (bs : List (List ℕ))
        → gz.open_reader (inr (stream gz.new_writer bs)) ≡ inr (inr (concat bs))

  -- If the client accepts gzip and its body is not gzip, all that the reply writes is one gzip
  -- stream, which a reader opens to exactly what the handler wrote; the state, the log and a panic
  -- are the handler's.
  pub with_gzip_unpacks :
      {S : Type 0} (h : Handler S) (req : Request) (s : S)
      → Unpacks
      → gz.contains (req.header "Accept-Encoding") "gzip" ≡ true
      → gz.contains (req.header "Content-Encoding") "gzip" ≡ false
      → (gz.open_reader (inr (written (with_gzip h req s).calls))
          ≡ inr (inr (written (h req s).calls)))
        × ((with_gzip h req s).state ≡ (h req s).state)
        × ((with_gzip h req s).logged ≡ (h req s).logged)
        × ((with_gzip h req s).panicked ≡ (h req s).panicked)
  unfolding with_gzip written
  with_gzip_unpacks h req s u accepts plain =
      let calls = (h req s).calls in
      let same : with_gzip h req s ≡ compress (h req s) = rw (plain, accepts) refl in
      (
        ap (λ (r : Reply _). gz.open_reader (inr (written r.calls))) same
            ∙ ap (λ b. gz.open_reader (inr b)) (written-compress_calls gz.new_writer calls)
            ∙ u.open-stream (chunks_of calls)
            ∙ ap (λ b. inr (inr b)) (concat-chunks_of calls),
        ap (λ (r : Reply _). r.state) same,
        ap (λ (r : Reply _). r.logged) same,
        ap (λ (r : Reply _). r.panicked) same,
      )

  -- A body that is a gzip stream reaches the handler as what was packed into it, in whatever
  -- pieces; the reply is compressed or not as the client accepts it.
  pub with_gzip_opens :
      {S : Type 0} (h : Handler S) (req : Request) (s : S) (bs : List (List ℕ))
      → Unpacks
      → gz.contains (req.header "Content-Encoding") "gzip" ≡ true
      → req.body ≡ inr (stream gz.new_writer bs)
      → with_gzip h req s
        ≡ packed
            (gz.contains (req.header "Accept-Encoding") "gzip")
            h
            (record req { body = inr (concat bs) })
            s
  unfolding with_gzip
  with_gzip_opens h req s bs u arrives e = rw arrives (
      ap (opened (gz.contains (req.header "Accept-Encoding") "gzip") h req s)
        (ap gz.open_reader e ∙ u.open-stream bs))
