-- ===== src/Symbols/Rounds.antt =====
-- How many symbols the walk of findInsertSymbol and deleteSymbol passes in nl-symbol.c.
use Prim.Native.Nat.{suc, ◌≤◌}
use native.Mathlib.Nat.{two-pow-succ, add-zero}
use newlisp_neo.Prelude.{
  ℕ, ◌+◌, ◌*◌, ◌^◌, ◌≡◌, refl, sym, ap, ◌∙◌, [], ◌∷◌, length, length-append, arith,
}
use newlisp_neo.Symbols.Name.{Name, name_order}
use newlisp_neo.Symbols.Tree.{
  Color, black, red, Entry, Tree, leaf, node, Parents, color_of, descend, Ordering_both,
  collect_symbols, Symbols,
}
use newlisp_neo.Symbols.Balance.{black_height, weight, IsBlack, IsBalanced, IsRedBlack, Beside}

-- A red symbol at the top counts once more.
abbrev top_red : Tree → ℕ
top_red leaf = 0
top_red (node black l e r) = 0
top_red (node red l e r) = 1

IsBlack-top_red : (t : Tree) → IsBlack t → top_red t ≡ 0
unfolding color_of
IsBlack-top_red leaf h = refl
IsBlack-top_red (node black l e r) h = refl
IsBlack-top_red (node red l e r) h = absurd (ground (arith, h))

-- One step down costs no more than the height gives.
step_down :
    (c : Color) (l : Tree) (e : Entry) (r t : Tree) (n : ℕ)
    → Beside c t
    → black_height t ≡ n
    → suc (2 * black_height t + top_red t) ≤ 2 * (n + weight c) + top_red (node c l e r)
step_down black l e r leaf n b h = omega arith
step_down black l e r (node black l' f r') n b h = omega arith
step_down black l e r (node red l' f r') n b h = omega arith
step_down red l e r t n b h = omega (arith, IsBlack-top_red t b)

walk_le :
    (key : Name) (t : Tree) (ps : Parents)
    → IsBalanced t
    → length (descend key t ps).1 ≤ length ps + (2 * black_height t + top_red t)
unfolding descend
walk_le key leaf ps h = omega arith
walk_le key (node c l e r) ps (same, bl, br, hl, hr) =
    let n = black_height l in
    Ordering_both
      (λ (z : Tree × Parents).
        length z.1 ≤ length ps + (2 * (n + weight c) + top_red (node c l e r)))
      (name_order key e.name) (λ _. omega arith)
      (λ _. omega (arith, walk_le key l _ hl, step_down c l e r l n bl refl))
      (λ _. omega (arith, walk_le key r _ hr, step_down c l e r r n br (sym same)))

power_weight : (c : Color) (n : ℕ) → 2 ^ (n + weight c) ≤ 2 ^ n + 2 ^ n
power_weight black n =
    let next : n + 1 ≡ suc n = omega arith in
    let double : 2 ^ (n + 1) ≡ 2 ^ n + 2 ^ n = ap (λ k. 2 ^ k) next ∙ two-pow-succ n in
    omega (arith, double)
power_weight red n = omega (arith, ap (λ k. 2 ^ k) (add-zero n))

power_le : (t : Tree) → IsBalanced t → 2 ^ black_height t ≤ length (collect_symbols t) + 1
unfolding collect_symbols
power_le leaf h = omega arith
power_le (node c l e r) (same, bl, br, hl, hr) = omega (
  arith,
  power_weight c (black_height l),
  power_le l hl,
  power_le r hr,
  ap (λ k. 2 ^ k) same,
  length-append (collect_symbols l) (e ∷ collect_symbols r),
)

-- In a red-black tree with `n` symbols the walk down to a name passes at most twice as many symbols
-- as the tree is high in black ones, `h`, and `2 ^ h` is at most `n + 1`.
pub descend_le :
    (key : Name) (s : Symbols)
    → IsRedBlack s.root
    → let h = black_height s.root in
      (length (descend key s.root []).1 ≤ 2 * h) × (2 ^ h ≤ length (collect_symbols s.root) + 1)
descend_le key s (b, h) =
    (omega (arith, walk_le key s.root [] h, IsBlack-top_red s.root b), power_le s.root h)
