-- ===== src/Files/Chunks.antt =====
-- How `filewrite` cuts its bytes into transactions.
use cs461_hw.Base.{
  ℕ, zero, suc, ◌+◌, ◌%◌, ◌^◌, ◌≡◌, ◌≢◌, ◌≤◌, ◌<◌, refl, sym, ap, subst, ◌∙◌, Option, none, some,
  List, [], ◌∷◌, ◌++◌, ◌==◌, length, take, drop, take-append-drop, length-take, length-drop,
  append_assoc, arith, Bool-cases, inl, inr,
}
use cs461_hw.Files.{
  max_chunk, WriteEnd, complete, failed, short, out_of_rounds, after_writei, write_loop, filewrite,
}

module _ {S : Type 0} (writei : ℕ → List ℕ → S → Option ℕ × S) where
  -- Calls of `writei` that write these bytes whole, in order, each of at most `max_chunk` bytes.
  pub data Chunks : ℕ → S → List ℕ → ℕ → S → Type 0 where
    none_left : {off : ℕ} {s : S} → Chunks off s [] off s
    chunk :
        {off off' : ℕ} {s s' s'' : S} {rest : List ℕ} (c : List ℕ)
        → 0 < length c
        → length c ≤ max_chunk
        → writei off c s ≡ (some (length c), s')
        → Chunks ((off + length c) % 2 ^ 32) s' rest off' s''
        → Chunks off s (c ++ rest) off' s''

  -- The bytes up to some chunk are written, and the call for that one answers `o`.
  pub record Stops (off : ℕ) (s : S) (bytes : List ℕ) (off' : ℕ) (o : Option ℕ) (s'' : S)
      : Type 0 where
    pub written : List ℕ
    pub tried : List ℕ
    pub rest : List ℕ
    pub before : S
    pub split : bytes ≡ written ++ (tried ++ rest)
    pub chunks : Chunks off s written off' before
    pub answer : writei off' tried before ≡ (o, s'')
    pub not_empty : 0 < length tried
    pub one_chunk_at_most : length tried ≤ max_chunk

  abbrev pub Outcome : ℕ → S → List ℕ → WriteEnd S → Type 0
  Outcome off s bytes (complete off' s') = Chunks off s bytes off' s'
  Outcome off s bytes (failed off' s') = Stops off s bytes off' none s'
  Outcome off s bytes short =
      (off' : ℕ) × (r : ℕ) × (s' : S) × (k : Stops off s bytes off' (some r) s') × (r
        ≢ length k.tried)
  Outcome off s bytes out_of_rounds = ⊥

  one_chunk :
      {off off' : ℕ} {s s' s'' : S} {o : Option ℕ} {rest : List ℕ} (c : List ℕ)
      → 0 < length c
      → length c ≤ max_chunk
      → writei off c s ≡ (some (length c), s')
      → Stops ((off + length c) % 2 ^ 32) s' rest off' o s''
      → Stops off s (c ++ rest) off' o s''
  one_chunk c z m e st = record {
    written = c ++ st.written;
    tried = st.tried;
    rest = st.rest;
    before = st.before;
    split = ap (λ l. c ++ l) st.split ∙ sym (append_assoc c st.written (st.tried ++ st.rest));
    chunks = chunk c z m e st.chunks;
    answer = st.answer;
    not_empty = st.not_empty;
    one_chunk_at_most = st.one_chunk_at_most;
  }

  chunk-Outcome :
      (off : ℕ) (s s' : S) (c rest : List ℕ) (w : WriteEnd S)
      → 0 < length c
      → length c ≤ max_chunk
      → writei off c s ≡ (some (length c), s')
      → Outcome ((off + length c) % 2 ^ 32) s' rest w
      → Outcome off s (c ++ rest) w
  unfolding one_chunk
  chunk-Outcome off s s' c rest (complete off' t) z m e k = chunk c z m e k
  chunk-Outcome off s s' c rest (failed off' t) z m e k = one_chunk c z m e k
  chunk-Outcome off s s' c rest short z m e (off', r, t, k, ne) =
      (off', r, t, one_chunk c z m e k, ne)
  chunk-Outcome off s s' c rest out_of_rounds z m e k = k

  stop_here :
      (off : ℕ) (s s' : S) (c rest : List ℕ) (o : Option ℕ)
      → 0 < length c
      → length c ≤ max_chunk
      → writei off c s ≡ (o, s')
      → Stops off s (c ++ rest) off o s'
  stop_here off s s' c rest o z m e = record {
    written = [];
    tried = c;
    rest = rest;
    before = s;
    split = refl;
    chunks = none_left;
    answer = e;
    not_empty = z;
    one_chunk_at_most = m;
  }

  after_writei-Outcome :
      (off : ℕ) (s : S) (c rest : List ℕ) (again : ℕ → S → WriteEnd S) (a : Option ℕ × S)
      → writei off c s ≡ a
      → 0 < length c
      → length c ≤ max_chunk
      → ((off' : ℕ) (s' : S) → Outcome off' s' rest (again off' s'))
      → Outcome off s (c ++ rest) (after_writei again off (length c) a)
  unfolding after_writei stop_here
  after_writei-Outcome off s c rest again (none, s') e z m k = stop_here off s s' c rest none z m e
  after_writei-Outcome off s c rest again (some r, s') e z m k = elim (Bool-cases (r == length c)) [
    | inl y ↦
        let same : r ≡ length c = ground arith in
        rw y (
          rw same (
            chunk-Outcome off s s' c rest (again ((off + length c) % 2 ^ 32) s') z m (rw same at e)
              (k ((off + length c) % 2 ^ 32) s')))
    | inr n ↦ rw n (off, r, s', stop_here off s s' c rest (some r) z m e, λ q. ground arith)
  ]

  write_loop-Outcome :
      (fuel off : ℕ) (bytes : List ℕ) (s : S)
      → length bytes ≤ fuel
      → Outcome off s bytes (write_loop writei fuel off bytes s)
  unfolding write_loop
  write_loop-Outcome fuel off [] s h = none_left
  write_loop-Outcome zero off (b ∷ bs) s h = absurd (omega arith)
  write_loop-Outcome (suc fuel) off (b ∷ bs) s h =
      subst (λ l. Outcome off s l (write_loop writei (suc fuel) off (b ∷ bs) s))
        (take-append-drop max_chunk (b ∷ bs))
        (after_writei-Outcome off s (take max_chunk (b ∷ bs)) (drop max_chunk (b ∷ bs))
          (λ off' s'. write_loop writei fuel off' (drop max_chunk (b ∷ bs)) s')
          (writei off (take max_chunk (b ∷ bs)) s) refl
          (omega (arith, length-take max_chunk (b ∷ bs)))
          (omega (arith, length-take max_chunk (b ∷ bs)))
          (λ off' s'.
            write_loop-Outcome fuel off' (drop max_chunk (b ∷ bs)) s'
              (omega (arith, h, length-drop max_chunk (b ∷ bs)))))

  -- Whatever `writei` does, `filewrite` ends: with all bytes written, in order, by whole chunks of at
  -- most `max_chunk` bytes; or at the first chunk whose call fails, or
  -- whose call answers another number than that of its bytes, which is the only panic.
  pub filewrite-Outcome :
      (off : ℕ) (bytes : List ℕ) (s : S) → Outcome off s bytes (filewrite writei off bytes s)
  unfolding filewrite
  filewrite-Outcome off bytes s = write_loop-Outcome (length bytes) off bytes s (omega arith)
