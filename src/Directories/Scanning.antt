-- ===== src/Directories/Scanning.antt =====
-- What the loops over the entries of a directory find, in terms of the bytes of its file.
use cs461_hw.Base.{
  ℕ, zero, suc, ◌+◌, ◌-◌, ◌*◌, ◌≡◌, ◌≤◌, ◌<◌, ◌∙◌, refl, sym, ap, subst, Bool, true, false, not,
  Option, none, some, List, ◌==◌, ltb, if◌then◌else◌, length, min, arith, Bool-cases, inl, inr,
  ℕ_discrete,
}
use cs461_hw.Blocks.{Volume, Inode}
use cs461_hw.Blocks.Content.{Run, ok, panic, out_of_rounds, readi}
use cs461_hw.Blocks.Content.Owned.{own, Owns, Extends, Extends-refl, Extends-trans}
use cs461_hw.Blocks.Content.Data.{contents, window, limit, window-cong}
use cs461_hw.Blocks.Content.Loops.{Hole, Extends-contents}
use cs461_hw.Blocks.Content.Refines.{ReadResult, readi-ReadResult}
use cs461_hw.Directories.{dirent_size, ◌>>=◌, scan_dir}

-- Entry `k` of a directory with these bytes.
abbrev pub entry : (ℕ → ℕ) → ℕ → List ℕ
entry f k = window dirent_size (k * dirent_size) f

-- What a search that starts at entry `k` of `n` ends with.
pub record Found (stop : List ℕ → Bool) (f : ℕ → ℕ) (k n : ℕ) (de : List ℕ) (off : ℕ) : Type 0 where
  pub index : ℕ
  pub from_start : k ≤ index
  pub in_dir : index < n
  pub offset : off ≡ index * dirent_size
  pub text : de ≡ entry f index
  pub stops : stop de ≡ true
  pub first : (l : ℕ) → k ≤ l → l < index → stop (entry f l) ≡ false

pub record NotFound (stop : List ℕ → Bool) (f : ℕ → ℕ) (k n : ℕ) (off : ℕ) : Type 0 where
  pub offset : off ≡ n * dirent_size
  pub none_stops : (l : ℕ) → k ≤ l → l < n → stop (entry f l) ≡ false

abbrev pub Scanned :
    (List ℕ → Bool) → ℕ → ℕ → Inode → Volume → Run (Option (List ℕ) × ℕ × Inode × Volume) → Type 0
Scanned stop k n ip v (ok (some de, off, ip', v')) =
    Found stop (contents ip v) k n de off × Extends ip v ip' v'
Scanned stop k n ip v (ok (none, off, ip', v')) =
    NotFound stop (contents ip v) k n off × Extends ip v ip' v'
Scanned stop k n ip v panic = Hole 0 ip.size ip v
Scanned stop k n ip v out_of_rounds = ⊥

length-window : (n off : ℕ) (f : ℕ → ℕ) → length (window n off f) ≡ n
length-window zero off f = refl
length-window (suc n) off f = ap suc (length-window n (off + 1) f)

-- Bytes that no write has touched are the same entry.
pub entry-Extends :
    {ip ip' : Inode} {v v' : Volume} (k : ℕ)
    → Extends ip v ip' v'
    → k * dirent_size + dirent_size ≤ limit
    → entry (contents ip' v') k ≡ entry (contents ip v) k
entry-Extends {ip} {ip'} {v} {v'} k e h =
    window-cong dirent_size (k * dirent_size) (contents ip' v') (contents ip v)
      λ j a b. Extends-contents j e (omega arith)

wider-Hole :
    (off n : ℕ) (ip : Inode) (v : Volume)
    → off + n ≤ ip.size
    → Hole off n ip v
    → Hole 0 ip.size ip v
wider-Hole off n ip v le h = record {
  some_byte = omega (arith, h.some_byte);
  place = h.place;
  first = omega arith;
  last = omega (arith, h.last);
  empty = h.empty;
}

earlier-Hole :
    (ip ip' : Inode) (v v' : Volume)
    → ip.size ≤ limit
    → Extends ip v ip' v'
    → Hole 0 ip'.size ip' v'
    → Hole 0 ip.size ip v
earlier-Hole ip ip' v v' l e h = record {
  some_byte = omega (arith, h.some_byte);
  place = h.place;
  first = omega arith;
  last = omega (arith, h.last, e.same_size);
  empty = e.keeps_blocks h.place (omega (arith, h.last, e.same_size)) h.empty;
}

-- A later search, after entry `k` has been passed over.
passed-Scanned :
    (stop : List ℕ → Bool) (k n : ℕ) (ip ip' : Inode) (v v' : Volume)
    (r : Run (Option (List ℕ) × ℕ × Inode × Volume))
    → n * dirent_size ≡ ip.size
    → ip.size ≤ limit
    → k < n
    → Extends ip v ip' v'
    → stop (entry (contents ip v) k) ≡ false
    → Scanned stop (k + 1) n ip' v' r
    → Scanned stop k n ip v r
passed-Scanned stop k n ip ip' v v' out_of_rounds sz l h e miss s = s
passed-Scanned stop k n ip ip' v v' panic sz l h e miss s = earlier-Hole ip ip' v v' l e s
passed-Scanned stop k n ip ip' v v' (ok (none, off, iq, w)) sz l h e miss (s, x) = (
  record {
    offset = s.offset;
    none_stops = λ j a b. elim (ℕ_discrete k j) [
      | yes q ↦ subst (λ i. stop (entry (contents ip v) i) ≡ false) q miss
      | no ne ↦ ap stop (sym (entry-Extends j e (omega arith))) ∙ s.none_stops j (omega arith) b
    ];
  },
  Extends-trans e x,
)
passed-Scanned stop k n ip ip' v v' (ok (some de, off, iq, w)) sz l h e miss (s, x) = (
  record {
    index = s.index;
    from_start = omega (arith, s.from_start);
    in_dir = s.in_dir;
    offset = s.offset;
    text = s.text ∙ entry-Extends s.index e (omega (arith, s.in_dir));
    stops = s.stops;
    first = λ j a b. elim (ℕ_discrete k j) [
      | yes q ↦ subst (λ i. stop (entry (contents ip v) i) ≡ false) q miss
      | no ne ↦
          ap stop (sym (entry-Extends j e (omega (arith, s.in_dir)))) ∙ s.first j (omega arith) b
    ];
  },
  Extends-trans e x,
)

pub scan_dir-Scanned :
    (stop : List ℕ → Bool) (fuel k n : ℕ) (ip : Inode) (v : Volume)
    → n * dirent_size ≡ ip.size
    → ip.size ≤ limit
    → k ≤ n
    → n - k ≤ fuel
    → Owns (own ip v) v.used
    → Scanned stop k n ip v (scan_dir stop fuel (k * dirent_size) ip v)
unfolding scan_dir
scan_dir-Scanned stop zero k n ip v sz l h f o =
    let done : ltb (k * 16) ip.size ≡ false = ground arith in
    rw done (
      record { offset = omega arith; none_stops = λ j a b. absurd (omega arith) },
      Extends-refl ip v o,
    )
scan_dir-Scanned stop (suc fuel) k n ip v sz l h f o = elim (Bool-cases (ltb (k * 16) ip.size)) [
  | inr past ↦
      let at_end : n ≤ k = ground arith in
      rw past (
        record { offset = omega arith; none_stops = λ j a b. absurd (omega arith) },
        Extends-refl ip v o,
      )
  | inl more ↦
      let lt : k < n = ground arith in
      rw more (
        round lt (readi (k * 16) 16 ip v)
          (readi-ReadResult (k * 16) 16 ip v o l (omega arith) (omega arith))
          (λ ip' v' e.
            subst (λ off. Scanned stop (k + 1) n ip' v' (scan_dir stop fuel off ip' v'))
              (let q : (k + 1) * 16 ≡ k * 16 + 16 = omega arith in q)
              (scan_dir-Scanned stop fuel (k + 1) n ip' v' (sz ∙ sym e.same_size)
                (omega (arith, e.same_size)) (omega arith) (omega arith) e.owns)))
]
  where
    round :
        k < n
        → (r : Run (Option (List ℕ) × Inode × Volume)) → ReadResult (k * 16) 16 ip v r
        → ((ip' : Inode) (v' : Volume)
            → Extends ip v ip' v'
            → Scanned stop (k + 1) n ip' v' (scan_dir stop fuel (k * 16 + 16) ip' v'))
        → Scanned stop k n ip v (
            r >>= λ (got, ip', v'). elim got as (λ _. Run (Option (List ℕ) × ℕ × Inode × Volume)) [
              | none ↦ panic
              | some de ↦
                  let rest = scan_dir stop fuel (k * 16 + dirent_size) ip' v' in
                  if not (length de == dirent_size)
                  then panic
                  else if stop de
                  then ok (some de, k * 16, ip', v')
                  else rest
            ])
    round lt panic (_, _, q) ih =
        wider-Hole (k * 16) (min 16 (ip.size - k * 16)) ip v (omega arith) q
    round lt out_of_rounds q ih = q
    round lt (ok (none, ip', v')) (inl past, _, _) ih = absurd (omega arith)
    round lt (ok (none, ip', v')) (inr wraps, _, _) ih = absurd (omega arith)
    round lt (ok (some de, ip', v')) (a, _, b, e) ih =
        let all : min 16 (ip.size - k * 16) ≡ 16 = omega arith in
        let text : de ≡ entry (contents ip v) k =
          b ∙ ap (λ m. window m (k * 16) (contents ip v)) all in
        let size : length de ≡ 16 = ap length text ∙ length-window 16 (k * 16) (contents ip v) in
        let full : (length de == 16) ≡ true = ground arith in
        rw full (elim (Bool-cases (stop de)) [
          | inl yes_stop ↦ rw yes_stop (
            record {
              index = k;
              from_start = omega arith;
              in_dir = lt;
              offset = refl;
              text = text;
              stops = yes_stop;
              first = λ j c d. absurd (omega arith);
            },
            e,
          )
          | inr no_stop ↦ rw no_stop (
              passed-Scanned stop k n ip ip' v v' (scan_dir stop fuel (k * 16 + 16) ip' v') sz l lt
                e (ap stop (sym text) ∙ no_stop) (ih ip' v' e))
        ])
