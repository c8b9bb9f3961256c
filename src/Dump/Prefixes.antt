-- ===== src/Dump/Prefixes.antt =====
-- A line starts with one prefix at most, if none of them starts with another.
use backup_tool.Base.{
  ◌≡◌, refl, Bool, true, false, not, ◌&&◌, List, [], ◌∷◌, all, All, arith, nat_beq_iff,
}
use backup_tool.Base.Text.{Chars, has_prefix}

-- No text of the list starts with another one.
unfoldable pub exclusive : List Chars → Bool
exclusive [] = true
exclusive (p ∷ ps) = all (λ q. not (has_prefix p q) && not (has_prefix q p)) ps && exclusive ps

-- Where the first prefix fits, no later one does.
abbrev pub OneAtMost : Chars → List Chars → Type 0
OneAtMost line [] = Unit
OneAtMost line (p ∷ ps) =
    (has_prefix line p ≡ true → All (λ q. has_prefix line q ≡ false) ps) × OneAtMost line ps

-- Of two prefixes of one line, one is a prefix of the other.
not_both :
    (line p q : Chars)
    → (not (has_prefix p q) && not (has_prefix q p)) ≡ true
    → has_prefix line p ≡ true
    → has_prefix line q ≡ false
not_both line p [] x h = absurd (ground (arith, x))
not_both line [] (d ∷ q) x h = absurd (ground (arith, x))
not_both [] (c ∷ p) (d ∷ q) x h = refl
not_both (a ∷ line) (c ∷ p) (d ∷ q) x h =
    ground
      (arith, nat_beq_iff a c, nat_beq_iff a d, nat_beq_iff c d, nat_beq_iff d c, not_both line p q)

none_other :
    (line p : Chars) (qs : List Chars)
    → all (λ q. not (has_prefix p q) && not (has_prefix q p)) qs ≡ true
    → has_prefix line p ≡ true
    → All (λ q. has_prefix line q ≡ false) qs
none_other line p [] x h = tt
none_other line p (q ∷ qs) x h =
    (not_both line p q (ground arith) h, none_other line p qs (ground arith) h)

pub exclusive-OneAtMost : (line : Chars) (ps : List Chars) → exclusive ps ≡ true → OneAtMost line ps
unfolding exclusive
exclusive-OneAtMost line [] x = tt
exclusive-OneAtMost line (p ∷ ps) x =
    (λ h. none_other line p ps (ground arith) h, exclusive-OneAtMost line ps (ground arith))
