-- ===== src/Transport/PartInfo/Add.antt =====
-- `add_part` of include/club/transport/part_info.h and the positions that are covered.
use libclub.Prelude.{
  ℕ, suc, ◌≤◌, ◌<◌, ◌≡◌, refl, ◌⊎◌, inl, inr, false, ◌&&◌, ◌||◌, [], ◌∷◌, Option, none, some, ltb,
  leb, max, ◌==◌, arith, Bool-cases, ltb→lt, ltb→le, lt→leb,
}
use native.Mathlib.Decide.{dec_lt}
use mathlib.Core.Option
use libclub.Transport.PartInfo.{Info, sanitize, merge_from, merge, emplace, add_part}
use libclub.Transport.PartInfo.Cover.{covers, Separated, sanitize-Separated, covers-sanitize}

-- Every part lies apart from the new one, with a gap between them.
abbrev Apart : ℕ → ℕ → Info → Type 0
Apart start end [] = Unit
Apart start end ((b, e) ∷ rest) = ((e < start) ⊎ (end < b)) × Apart start end rest

module _ (start end : ℕ) (h : start < end) where
  -- What has been achieved when a part was changed.
  record Merged (low : ℕ) (old new : Info) : Type 0 where
    separated : Separated low new
    covered : (x : ℕ) → covers new x ≡ ((leb start x && ltb x end) || covers old x)

  Apart-above : (m : ℕ) (rest : Info) → end < m → Separated m rest → Apart start end rest
  Apart-above m [] k s = tt
  Apart-above m ((b, e) ∷ rest) k s =
      (inr (omega arith), Apart-above (suc e) rest (omega arith) s.2)

  merge_from_above :
      (m : ℕ) (rest : Info) → end < m → Separated m rest → merge_from start end rest ≡ none
  unfolding merge_from
  merge_from_above m [] k s = refl
  merge_from_above m ((b, e) ∷ rest) k s = ground (arith, merge_from_above (suc e) rest)

  Merged-widened :
      (low b e : ℕ) (rest : Info)
      → Separated low ((b, e) ∷ rest)
      → b ≤ start
      → start ≤ e
      → Merged low ((b, e) ∷ rest) (sanitize b (max end e) rest)
  Merged-widened low b e rest s k l = record {
    separated =
        sanitize-Separated low b (max end e) (suc e) rest s.0 (omega arith) (omega arith) s.2;
    covered = λ x. ground (arith, covers-sanitize b (max end e) (suc e) rest x);
  }

  Merged-replaced :
      (low b e : ℕ) (rest : Info)
      → low ≤ start
      → Separated low ((b, e) ∷ rest)
      → start ≤ b
      → b ≤ end
      → Merged low ((b, e) ∷ rest) (sanitize start (max end e) rest)
  Merged-replaced low b e rest lo s k l = record {
    separated =
        sanitize-Separated low start (max end e) (suc e) rest lo (omega arith) (omega arith) s.2;
    covered = λ x. ground (arith, covers-sanitize start (max end e) (suc e) rest x);
  }

  Merged-kept :
      (low b e : ℕ) (old new : Info)
      → low ≤ b
      → b < e
      → Merged (suc e) old new
      → Merged low ((b, e) ∷ old) ((b, e) ∷ new)
  Merged-kept low b e old new lo ne m = record {
    separated = (lo, ne, m.separated);
    covered = λ x. ground (arith, m.covered x);
  }

  -- The two ways in which the loop ends.
  data Scanned (low : ℕ) (old : Info) (r : Option Info) : Type 0 where
    changed : (new : Info) → r ≡ some new → Merged low old new → Scanned low old r
    unchanged : r ≡ none → Apart start end old → Scanned low old r

  Scanned-keep :
      (low b e : ℕ) (old : Info) {r : Option Info}
      → low ≤ b
      → b < e
      → e < start
      → Scanned (suc e) old r
      → Scanned low ((b, e) ∷ old) (Option.map (λ parts. (b, e) ∷ parts) r)
  Scanned-keep low b e old lo ne gap (changed new eq m) =
      changed ((b, e) ∷ new) (rw eq) (Merged-kept low b e old new lo ne m)
  Scanned-keep low b e old lo ne gap (unchanged eq apart) = unchanged (rw eq) (inl gap, apart)

  merge_from-Scanned :
      (low : ℕ) (info : Info)
      → low ≤ start
      → Separated low info
      → Scanned low info (merge_from start end info)
  unfolding merge_from
  merge_from-Scanned low [] lo s = unchanged refl tt
  merge_from-Scanned low ((b, e) ∷ rest) lo s = elim (Bool-cases (leb b start && leb start e)) [
    | inl reach ↦
        changed (sanitize b (max end e) rest) (rw reach)
          (Merged-widened low b e rest s (ground arith) (ground arith))
    | inr miss ↦ elim (Bool-cases (leb start b && leb b end)) [
      | inl reach ↦
          changed (sanitize start (max end e) rest) (rw (miss, reach))
            (Merged-replaced low b e rest lo s (ground arith) (ground arith))
      | inr apart ↦
          rw (miss, apart)
            (elim (dec_lt e start) [
              | yes below ↦
                  Scanned-keep low b e rest s.0 s.1 below
                    (merge_from-Scanned (suc e) rest (omega arith) s.2)
              | no above ↦
                  let far : end < b = ground arith in
                  unchanged (rw (merge_from_above (suc e) rest (omega arith) s.2))
                    (inr far, Apart-above (suc e) rest (omega arith) s.2)
            ])
    ]
  ]

  merge-Scanned :
      (low : ℕ) (info : Info)
      → low ≤ start
      → Separated low info
      → Scanned low info (merge start end info)
  unfolding merge
  merge-Scanned low [] lo s = unchanged refl tt
  merge-Scanned low (p ∷ []) lo s = merge_from-Scanned low (p ∷ []) lo s
  merge-Scanned low ((pb, pe) ∷ (b, e) ∷ rest) lo s = elim (Bool-cases (ltb b start)) [
    | inl below ↦ rw below (
        Scanned-keep low pb pe ((b, e) ∷ rest) s.0 s.1 (ground arith)
          (merge-Scanned (suc pe) ((b, e) ∷ rest) (ground arith) s.2))
    | inr above ↦ rw above (merge_from-Scanned low ((pb, pe) ∷ (b, e) ∷ rest) lo s)
  ]

  below_of : {b e : ℕ} → b < end → (e < start) ⊎ (end < b) → e < start
  below_of k (inl below) = below
  below_of k (inr above) = absurd (omega arith)

  above_of : {b e : ℕ} → start ≤ e → (e < start) ⊎ (end < b) → end < b
  above_of k (inl below) = absurd (omega arith)
  above_of k (inr above) = above

  emplace-Merged :
      (low : ℕ) (info : Info)
      → low ≤ start
      → Separated low info
      → Apart start end info
      → Merged low info (emplace start end info)
  unfolding emplace
  emplace-Merged low [] lo s a = record { separated = (lo, h, tt); covered = λ x. refl }
  emplace-Merged low ((b, e) ∷ rest) lo s a = elim (Bool-cases (ltb b start)) [
    | inl below ↦
        let gap : e < start = below_of (omega (arith, ltb→lt b start below)) a.0 in
        rw below (
          Merged-kept low b e rest (emplace start end rest) s.0 s.1
            (emplace-Merged (suc e) rest gap s.2 a.1))
    | inr above ↦
        let far : end < b = above_of (omega (arith, s.1, ltb→le b start above)) a.0 in
        let differ : (b == start) ≡ false = ground arith in
        rw (above, differ) (record { separated = (lo, h, (far, s.1, s.2)); covered = λ x. refl })
  ]

  add_part-Merged : (info : Info) → Separated 0 info → Merged 0 info (add_part start end info)
  unfolding add_part
  add_part-Merged info s = rw (lt→leb end start h) (added (merge-Scanned 0 info (omega arith) s))
    where
      added :
          {r : Option Info}
          → Scanned 0 info r
          → Merged 0 info (elim r as (λ _. Info) [ none ↦ emplace start end info | some new ↦ new ])
      added (changed new eq m) = rw eq m
      added (unchanged eq apart) = rw eq (emplace-Merged 0 info (omega arith) s apart)

add_part_empty : (start end : ℕ) (info : Info) → end ≤ start → add_part start end info ≡ info
unfolding add_part
add_part_empty start end info h = ground arith

-- The first part stands alone.
pub add_part_first : (end : ℕ) → 0 < end → add_part 0 end [] ≡ (0, end) ∷ []
unfolding add_part merge emplace
add_part_first end h = ground arith

-- `add_part` keeps the parts nonempty, in order and with gaps between them.
pub add_part-Separated :
    (start end : ℕ) (info : Info) → Separated 0 info → Separated 0 (add_part start end info)
add_part-Separated start end info s = elim (dec_lt start end) [
  | yes h ↦ (add_part-Merged start end h info s).separated
  | no h ↦ rw (add_part_empty start end info (omega arith)) s
]

-- After `add_part` a position is covered if and only if it was covered before or it lies in the
-- part that was added.
pub covers-add_part :
    (start end : ℕ) (info : Info) (x : ℕ)
    → Separated 0 info
    → covers (add_part start end info) x ≡ ((leb start x && ltb x end) || covers info x)
covers-add_part start end info x s = elim (dec_lt start end) [
  | yes h ↦ (add_part-Merged start end h info s).covered x
  | no h ↦ rw (add_part_empty start end info (omega arith)) (ground arith)
]
