-- ===== src/Dump/Refinement.antt =====
-- The loop of DumpAll (pkg/postgres/dump.go) writes what the specification says.
use backup_tool.Base.{
  ℕ, ◌+◌, ◌≤◌, ◌≡◌, refl, sym, ◌∙◌, ap, fun_ext, Bool, true, false, not, ◌&&◌, ◌||◌, Bool-cases,
  Option, none, some, Option-cases, List, [], ◌∷◌, map, length, any, All, ltb, if◌then◌else◌, inl,
  inr, arith,
}
use backup_tool.Base.Text.{Chars, has_prefix}
use backup_tool.Errors.{Errors, Result, ok, err}
use backup_tool.Exec.{Exec, and_then, pure, ◌>>◌}
use backup_tool.Dump.{
  Tracker, ignore_lines, fresh_tracker, is_statement, flag, marked, comment_line, Ending, eof,
  broken, DumpProcess, write_line, dump_lines,
}
use backup_tool.Dump.Spec.{hits, first_hit, commented, dump_spec}
use backup_tool.Dump.Prefixes.{exclusive, OneAtMost, exclusive-OneAtMost}

-- Each prefix with whether a statement that starts with it was seen.
abbrev seen_items : List Chars → List Chars → List (Chars × Bool)
seen_items prefixes before = map (λ p. (p, any (hits p) before)) prefixes

-- One item of `flag` against one prefix of the specification.
flag_step :
    (p : Chars) (seen statement fits later : Bool) (items new : List (Chars × Bool))
    (rest : Option (List (Chars × Bool)))
    → statement ≡ true
    → rest ≡ (if later then some new else none)
    → (fits ≡ true → later ≡ false)
    → (fits ≡ true → new ≡ items)
    → (if not seen && fits
        then some ((p, true) ∷ items)
        else (elim rest as (λ _. Option (List (Chars × Bool))) [
          | none ↦ none
          | some items' ↦ some ((p, seen) ∷ items')
        ]))
      ≡ (if ((statement && fits) && not seen) || later
          then some ((p, (statement && fits) || seen) ∷ new)
          else none)
flag_step p true statement true later items new rest s e f g = ground (arith, f refl)
flag_step p true statement false true items new rest s e f g = ground arith
flag_step p true statement false false items new rest s e f g = ground arith
flag_step p false statement true later items new rest s e f g = ground (arith, f refl, g refl)
flag_step p false statement false true items new rest s e f g = ground arith
flag_step p false statement false false items new rest s e f g = ground arith

module _ (before : List Chars) (line : Chars) where
  same_items :
      (p : Chars) {b c : Bool} {xs ys : List (Chars × Bool)}
      → b ≡ c
      → xs ≡ ys
      → ◌≡◌ {A = List (Chars × Bool)} ((p, b) ∷ xs) ((p, c) ∷ ys)
  same_items p e rest i = (p, e i) ∷ rest i

  -- No later prefix fits, so no later item changes.
  rest_unseen :
      (ps : List Chars)
      → All (λ q. has_prefix line q ≡ false) ps
      → seen_items ps (line ∷ before) ≡ seen_items ps before
  rest_unseen [] h = refl
  rest_unseen (q ∷ ps) h = same_items q (ground (arith, h.0)) (rest_unseen ps h.1)

  none_hit :
      (ps : List Chars) → All (λ q. has_prefix line q ≡ false) ps → first_hit ps before line ≡ false
  none_hit [] h = refl
  none_hit (q ∷ ps) h = ground (arith, h.0, none_hit ps h.1)

  -- What flagging finds, where the line is a statement.
  flag-first_hit :
      (ps : List Chars)
      → is_statement line ≡ true
      → OneAtMost line ps
      → flag (seen_items ps before) line
        ≡ (if first_hit ps before line then some (seen_items ps (line ∷ before)) else none)
  unfolding flag
  flag-first_hit [] s one = refl
  flag-first_hit (p ∷ ps) s one =
      flag_step p (any (hits p) before) (is_statement line) (has_prefix line p)
        (first_hit ps before line) (seen_items ps before) (seen_items ps (line ∷ before))
        (flag (seen_items ps before) line) s (flag-first_hit ps s one.1)
        (λ fits. none_hit ps (one.0 fits)) (λ fits. rest_unseen ps (one.0 fits))

  -- Without a first hit nothing new is seen.
  seen-same :
      (ps : List Chars)
      → first_hit ps before line ≡ false
      → seen_items ps (line ∷ before) ≡ seen_items ps before
  seen-same [] h = refl
  seen-same (p ∷ ps) h = same_items p (ground (arith, h)) (seen-same ps (ground (arith, h)))

  not_statement : (ps : List Chars) → is_statement line ≡ false → first_hit ps before line ≡ false
  not_statement [] h = refl
  not_statement (p ∷ ps) h = ground (arith, h, not_statement ps h)

abbrev count : List (Chars × Bool) → ℕ
count [] = 0
count ((p, found) ∷ items) = (if found then 1 else 0) + count items

count-le : (items : List (Chars × Bool)) → count items ≤ length items
count-le [] = omega arith
count-le ((p, found) ∷ items) = ground (arith, count-le items)

-- Where all are seen, no line is a first hit.
all_seen :
    (ps before : List Chars) (line : Chars)
    → ltb (count (seen_items ps before)) (length (seen_items ps before)) ≡ false
    → first_hit ps before line ≡ false
all_seen [] before line h = refl
all_seen (p ∷ ps) before line h = elim (Bool-cases (any (hits p) before)) [
  | inl old ↦ ground (arith, old, h, all_seen ps before line)
  | inr new ↦ absurd (ground (arith, new, h, count-le (seen_items ps before)))
]

flag-count :
    (items items' : List (Chars × Bool)) (line : Chars)
    → flag items line ≡ some items'
    → count items' ≡ count items + 1
unfolding flag
flag-count [] items' line h = absurd (ground (arith, h))
flag-count ((p, true) ∷ items) items' line h = elim (Option-cases (flag items line)) [
  | inl e ↦ absurd (ground (arith, e, h))
  | inr (later, e) ↦ ground (arith, e, h, flag-count items later line e)
]
flag-count ((p, false) ∷ items) items' line h = elim (Bool-cases (has_prefix line p)) [
  | inl fits ↦ ground (arith, fits, h)
  | inr other ↦ elim (Option-cases (flag items line)) [
    | inl e ↦ absurd (ground (arith, e, h, other))
    | inr (later, e) ↦ ground (arith, e, h, other, flag-count items later line e)
  ]
]

-- The tracker after some lines.
abbrev knowing : List Chars → List Chars → Tracker
knowing ps before = record {
  items = seen_items ps before;
  found_count = count (seen_items ps before);
}

-- The branches of `comment_line` against a first hit.
line_step :
    (room statement hit : Bool) (t t' : Tracker) (found : Option (List (Chars × Bool)))
    (items : List (Chars × Bool)) (line m : Chars)
    → (room ≡ false → hit ≡ false)
    → (statement ≡ false → hit ≡ false)
    → (statement ≡ true → found ≡ (if hit then some items else none))
    → (hit ≡ false → t' ≡ t)
    → (statement ≡ true
        → hit ≡ true
        → t' ≡ record { items = items; found_count = t.found_count + 1 })
    → (if room && statement
        then (elim found as (λ _. Tracker × Chars) [
          | none ↦ (t, line)
          | some items ↦ (record { items = items; found_count = t.found_count + 1 }, m)
        ])
        else (t, line))
      ≡ (t', if hit then m else line)
line_step false statement true t t' found items line m a b c d e = absurd (ground (arith, a refl))
line_step false statement false t t' found items line m a b c d e = ground (arith, d refl)
line_step true false true t t' found items line m a b c d e = absurd (ground (arith, b refl))
line_step true false false t t' found items line m a b c d e = ground (arith, d refl)
line_step true true true t t' found items line m a b c d e =
    rw (c refl) (ap (λ t. (t, m)) (sym (e refl refl)))
line_step true true false t t' found items line m a b c d e =
    rw (c refl) (ap (λ t. (t, line)) (sym (d refl)))

module _ (ps before : List Chars) (line : Chars) (one : OneAtMost line ps) where
  -- One line of the loop against one of the specification.
  comment_line-knowing :
      comment_line (knowing ps before) line
      ≡ (knowing ps (line ∷ before), if first_hit ps before line then marked line else line)
  unfolding comment_line
  comment_line-knowing =
      let items = seen_items ps before in
      let items' = seen_items ps (line ∷ before) in
      line_step (ltb (count items) (length items)) (is_statement line) (first_hit ps before line)
        (knowing ps before) (knowing ps (line ∷ before)) (flag items line) items' line (marked line)
        (all_seen ps before line) (not_statement before line ps)
        (λ s. flag-first_hit before line ps s one)
        (λ h.
          ap (λ (xs : List (Chars × Bool)). record { items = xs; found_count = count xs })
            (seen-same before line ps h))
        (λ s h.
          ap (λ (n : ℕ). record { items = items'; found_count = n })
            (flag-count items items' line (flag-first_hit before line ps s one ∙ rw h refl)))

module _ (E : Errors) {W : Type 0} (d : DumpProcess E.Error W) where
  unit_law :
      (r : Result E.Error (Unit {0})) (w : W)
      → ◌≡◌ {A = Result E.Error (Unit {0}) × W} (r, w) (and_then r (λ _. pure tt) w)
  unit_law (ok u) w = refl
  unit_law (err e) w = refl

  pure_unit : (m : Exec E.Error W (Unit {0})) → m ≡ (m >> pure tt)
  pure_unit m = fun_ext (λ w. unit_law (m w).0 (m w).1)

  module _ (ps before : List Chars) (line : Chars) (x : exclusive ps ≡ true) where
    -- What is written of one line.
    written :
        write_line E d (comment_line (knowing ps before) line).1
        ≡ write_line E d (if first_hit ps before line then marked line else line)
    written =
        ap (λ (q : Tracker × Chars). write_line E d q.1)
          (comment_line-knowing ps before line (exclusive-OneAtMost line ps x))

    line-then :
        (lines : List Chars) (ending : Ending E.Error) (rest : Exec E.Error W (Unit {0}))
        → dump_lines E d (knowing ps (line ∷ before)) lines ending ≡ rest
        → dump_lines E d (knowing ps before) (line ∷ lines) ending
          ≡ (write_line E d (if first_hit ps before line then marked line else line) >> rest)
    unfolding dump_lines
    line-then lines ending rest ih =
        ap (λ (q : Tracker × Chars). write_line E d q.1 >> dump_lines E d q.0 lines ending)
          (comment_line-knowing ps before line (exclusive-OneAtMost line ps x))
        ∙ ap (λ k. write_line E d (if first_hit ps before line then marked line else line) >> k) ih

  dump_lines-knowing :
      (ps : List Chars)
      → exclusive ps ≡ true
      → (before lines : List Chars) (ending : Ending E.Error)
      → dump_lines E d (knowing ps before) lines ending ≡ dump_spec E d ps before lines ending
  unfolding dump_lines dump_spec commented
  dump_lines-knowing ps x before [] (eof last) = written ps before last x ∙ pure_unit _
  dump_lines-knowing ps x before [] (broken e) = refl
  dump_lines-knowing ps x before (line ∷ lines) (eof last) =
      line-then ps before line x lines (eof last) _
        (dump_lines-knowing ps x (line ∷ before) lines (eof last))
  dump_lines-knowing ps x before (line ∷ lines) (broken e) =
      line-then ps before line x lines (broken e) _
        (dump_lines-knowing ps x (line ∷ before) lines (broken e))

  -- The loop of a dump writes each line in order, as long as no write fails, and comments out exactly
  -- those statements that are the first to start with one of the ignored prefixes; the error of a
  -- broken output is returned after its lines.
  pub dump_lines-dump_spec :
      (lines : List Chars) (ending : Ending E.Error) (w : W)
      → dump_lines E d (fresh_tracker ignore_lines) lines ending w
        ≡ dump_spec E d ignore_lines [] lines ending w
  unfolding exclusive
  dump_lines-dump_spec lines ending w =
      ap (λ (m : Exec E.Error W (Unit {0})). m w)
        (dump_lines-knowing ignore_lines refl [] lines ending)
