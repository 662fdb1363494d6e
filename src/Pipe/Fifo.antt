-- ===== src/Pipe/Fifo.antt =====
-- The ring holds a queue of bytes: what `pipewrite` appends and `piperead` takes from its front.
use cs461_hw.Base.{
  ℕ, zero, suc, ◌+◌, ◌-◌, ◌%◌, ◌^◌, ◌≤◌, ◌<◌, ◌≡◌, refl, ◌≢◌, ◌∙◌, ap, ap₂, Bool, true, false, not,
  ◌&&◌, ◌||◌, ◌⊎◌, sym, if◌then◌else◌, List, [], ◌∷◌, ◌++◌, length, get_or, set, append_assoc,
  append-nil, get_or-set_self, get_or-set_ne, length-set, Bool-cases, inl, inr, arith, min,
}
use cs461_hw.Pipe.{
  Pipe, pipe_size, is_full, is_empty, put, front, advance, WriteEnd, written, refused, waiting,
  pipewrite, copy_out, ReadEnd, got, interrupted, blocked, piperead,
}

-- The number of bytes in the ring: `nwrite - nread` as a `uint`.
abbrev pub count : Pipe → ℕ
count p = (p.nwrite + 2 ^ 32 - p.nread) % 2 ^ 32

pub record IsValid (p : Pipe) : Type 0 where
  pub storage : length p.bytes ≡ pipe_size
  pub read_word : p.nread < 2 ^ 32
  pub write_word : p.nwrite < 2 ^ 32
  pub within : count p ≤ pipe_size

abbrev pub window : List ℕ → ℕ → ℕ → List ℕ
window buf h zero = []
window buf h (suc n) = get_or buf (h % pipe_size) 0 ∷ window buf ((h + 1) % 2 ^ 32) n

-- The bytes in the ring, oldest first.
abbrev pub contents : Pipe → List ℕ
contents p = window p.bytes p.nread (count p)

window-set :
    (buf : List ℕ) (x n h i : ℕ)
    → length buf ≡ pipe_size
    → n < pipe_size
    → i ≡ (h + n) % pipe_size
    → window (set buf i x) h (suc n) ≡ window buf h n ++ (x ∷ [])
window-set buf x zero h i s hn e =
    let e' : i ≡ h % pipe_size = omega arith in
    rw e' (ap (λ t. t ∷ []) (get_or-set_self buf (h % pipe_size) x 0 (omega arith)))
window-set buf x (suc n) h i s hn e =
    ap₂ ◌∷◌ (get_or-set_ne buf x 0 (omega arith))
      (window-set buf x n ((h + 1) % 2 ^ 32) i s (omega arith) (omega arith))

put-IsValid : (b : ℕ) (p : Pipe) → IsValid p → is_full p ≡ false → IsValid (put b p)
unfolding put is_full
put-IsValid b p v h = ground (arith, length-set p.bytes (p.nwrite % pipe_size) b)

contents-put :
    (b : ℕ) (p : Pipe) → IsValid p → is_full p ≡ false → contents (put b p) ≡ contents p ++ (b ∷ [])
unfolding put is_full
contents-put b p v h =
    let room : count p < pipe_size = ground arith in
    let more : count (put b p) ≡ suc (count p) = ground arith in
    ap (window (put b p).bytes p.nread) more
    ∙ window-set p.bytes b (count p) p.nread (p.nwrite % pipe_size) v.storage room (omega arith)

advance-IsValid : (p : Pipe) → IsValid p → is_empty p ≡ false → IsValid (advance p)
unfolding advance is_empty
advance-IsValid p v h = ground arith

contents-advance :
    (p : Pipe) → IsValid p → is_empty p ≡ false → contents p ≡ front p ∷ contents (advance p)
unfolding advance is_empty front
contents-advance p v h =
    let less : count p ≡ suc (count (advance p)) = ground arith in ap (window p.bytes p.nread) less

length-window : (buf : List ℕ) (h n : ℕ) → length (window buf h n) ≡ n
length-window buf h zero = refl
length-window buf h (suc n) = ap suc (length-window buf ((h + 1) % 2 ^ 32) n)

empty-contents : (p : Pipe) → IsValid p → is_empty p ≡ true → contents p ≡ []
unfolding is_empty
empty-contents p v h = let gone : count p ≡ 0 = ground arith in ap (window p.bytes p.nread) gone

-- Why a run of `pipewrite` ended, with the bytes `left` not written.
abbrev pub WriteReason : Bool → List ℕ → WriteEnd → Pipe → Type 0
WriteReason killed left written p = left ≡ []
WriteReason killed left refused p =
    (is_full p ≡ true) × (left ≢ []) × ((p.readopen ≡ false) ⊎ (killed ≡ true))
WriteReason killed left (waiting bs) p =
    (bs ≡ left) × (left ≢ []) × (is_full p ≡ true) × (p.readopen ≡ true) × (killed ≡ false)

-- A run on `bs` has appended the bytes `sent`, in order, and `left` are the others.
pub record Wrote (killed : Bool) (bs : List ℕ) (p : Pipe) (out : WriteEnd × Pipe) : Type 0 where
  pub sent : List ℕ
  pub left : List ℕ
  pub split : bs ≡ sent ++ left
  pub appended : contents out.1 ≡ contents p ++ sent
  pub reason : WriteReason killed left out.0 out.1
  pub valid : IsValid out.1
  pub ends_kept : (out.1.readopen ≡ p.readopen) × (out.1.writeopen ≡ p.writeopen)

put-ends :
    (b : ℕ) (p : Pipe) → ((put b p).readopen ≡ p.readopen) × ((put b p).writeopen ≡ p.writeopen)
unfolding put
put-ends b p = (refl, refl)

cons-ne-nil : (b : ℕ) (bs : List ℕ) → b ∷ bs ≢ []
cons-ne-nil b bs e = cc

stuck_writer :
    (killed : Bool) (b : ℕ) (bs : List ℕ) (p : Pipe)
    → IsValid p
    → is_full p ≡ true
    → Wrote killed
        (b ∷ bs)
        p
        (if not p.readopen || killed then (refused, p) else (waiting (b ∷ bs), p))
stuck_writer killed b bs p v full = elim (Bool-cases (not p.readopen || killed)) [
  | inl stop ↦ rw stop (record {
    sent = [];
    left = b ∷ bs;
    split = refl;
    appended = sym (append-nil (contents p));
    reason = (full, cons-ne-nil b bs, ground arith);
    valid = v;
    ends_kept = (refl, refl);
  })
  | inr go ↦ rw go (record {
    sent = [];
    left = b ∷ bs;
    split = refl;
    appended = sym (append-nil (contents p));
    reason = (refl, cons-ne-nil b bs, full, ground arith, ground arith);
    valid = v;
    ends_kept = (refl, refl);
  })
]

-- A run of `pipewrite` appends a prefix of the bytes to the pipe's contents, and ends because all are
-- written, because the pipe is full and has no reader or the process is killed, or asleep on a full
-- pipe with exactly the other bytes left; it keeps the ring valid and both ends as they were.
pub pipewrite-Wrote :
    (killed : Bool) (bs : List ℕ) (p : Pipe) → IsValid p → Wrote killed bs p (pipewrite killed bs p)
unfolding pipewrite
pipewrite-Wrote killed [] p v = record {
  sent = [];
  left = [];
  split = refl;
  appended = sym (append-nil (contents p));
  reason = refl;
  valid = v;
  ends_kept = (refl, refl);
}
pipewrite-Wrote killed (b ∷ bs) p v = elim (Bool-cases (is_full p)) [
  | inl full ↦ rw full (stuck_writer killed b bs p v full)
  | inr room ↦
      let w = pipewrite-Wrote killed bs (put b p) (put-IsValid b p v room) in
      rw room (record {
        sent = b ∷ w.sent;
        left = w.left;
        split = ap (λ l. b ∷ l) w.split;
        appended =
            w.appended
            ∙ ap (λ l. l ++ w.sent) (contents-put b p v room)
            ∙ append_assoc (contents p) (b ∷ []) w.sent;
        reason = w.reason;
        valid = w.valid;
        ends_kept = (w.ends_kept.0 ∙ (put-ends b p).0, w.ends_kept.1 ∙ (put-ends b p).1);
      })
]

-- `copy_out` takes the first `n` bytes, or all if there are fewer.
pub record Took (n : ℕ) (p : Pipe) (out : List ℕ × Pipe) : Type 0 where
  pub front_part : contents p ≡ out.0 ++ contents out.1
  pub amount : length out.0 ≡ min n (count p)
  pub valid : IsValid out.1
  pub ends_kept : (out.1.readopen ≡ p.readopen) × (out.1.writeopen ≡ p.writeopen)

advance-ends :
    (p : Pipe) → ((advance p).readopen ≡ p.readopen) × ((advance p).writeopen ≡ p.writeopen)
unfolding advance
advance-ends p = (refl, refl)

advance-count : (p : Pipe) → IsValid p → is_empty p ≡ false → count (advance p) + 1 ≡ count p
unfolding advance is_empty
advance-count p v h = ground arith

empty-count : (p : Pipe) → is_empty p ≡ true → IsValid p → count p ≡ 0
unfolding is_empty
empty-count p h v = ground arith

pub copy_out-Took : (n : ℕ) (p : Pipe) → IsValid p → Took n p (copy_out n p)
unfolding copy_out
copy_out-Took zero p v = record {
  front_part = refl;
  amount = omega arith;
  valid = v;
  ends_kept = (refl, refl);
}
copy_out-Took (suc n) p v = elim (Bool-cases (is_empty p)) [
  | inl e ↦
      let c = empty-count p e v in
      rw e (record { front_part = refl; amount = omega arith; valid = v; ends_kept = (refl, refl) })
  | inr more ↦
      let t = copy_out-Took n (advance p) (advance-IsValid p v more) in
      let c = advance-count p v more in
      rw more (record {
        front_part = contents-advance p v more ∙ ap (λ l. front p ∷ l) t.front_part;
        amount = omega (arith, t.amount);
        valid = t.valid;
        ends_kept = (t.ends_kept.0 ∙ (advance-ends p).0, t.ends_kept.1 ∙ (advance-ends p).1);
      })
]

-- What `piperead` returns: the oldest bytes, as many as are there up to `n`; on an empty pipe with a
-- writer it blocks, or answers -1 if the process is killed; with no writer it reads nothing (end of
-- file). The pipe loses exactly the bytes returned.
abbrev pub Read : Bool → ℕ → Pipe → ReadEnd → Pipe → Type 0
Read killed n p (got xs) p' =
    Took n p (xs, p') × ((is_empty p ≡ true) → (p.writeopen ≡ false) × (xs ≡ []))
Read killed n p interrupted p' =
    (p' ≡ p) × (is_empty p ≡ true) × (p.writeopen ≡ true) × (killed ≡ true)
Read killed n p blocked p' =
    (p' ≡ p) × (is_empty p ≡ true) × (p.writeopen ≡ true) × (killed ≡ false)

nil_of_length : (xs : List ℕ) → length xs ≡ 0 → xs ≡ []
nil_of_length [] h = refl
nil_of_length (x ∷ xs) h = absurd (omega arith)

-- `piperead` behaves as `Read` says, on every branch.
pub piperead-Read :
    (killed : Bool) (n : ℕ) (p : Pipe)
    → IsValid p
    → let (e, p') = piperead killed n p in Read killed n p e p'
unfolding piperead
piperead-Read killed n p v = elim (Bool-cases (is_empty p && p.writeopen)) [
  | inl wait ↦ rw wait (stop wait killed)
  | inr go ↦
      let t = copy_out-Took n p v in
      rw go (
        t,
        λ e.
            let c = empty-count p e v in
            (ground arith, nil_of_length (copy_out n p).0 (omega (arith, t.amount))),
      )
]
  where
    stop :
        (is_empty p && p.writeopen) ≡ true
        → (k : Bool)
        → let r : ReadEnd × Pipe = (if k then (interrupted, p) else (blocked, p)) in
          Read k n p r.0 r.1
    stop wait true = (refl, ground arith, ground arith, refl)
    stop wait false = (refl, ground arith, ground arith, refl)
