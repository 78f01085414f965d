-- ===== src/Vm/Steps.antt =====
-- Runs of the machine of nl-vm.c, put together step by step.
use mathlib.Core.Path.{subst}
use newlisp_neo.Prelude.{ℕ, zero, suc, ◌≡◌, refl, sym, ap, ◌∙◌}
use newlisp_neo.Vm.Machine.{Runtime, Machine, Outcome, running}
use newlisp_neo.Vm.Step.{step, run}

-- The machine gets from one state to another in so many steps.
unfoldable pub Reaches : Runtime → ℕ → Machine → Machine → Type 0
Reaches rt zero m m' = m ≡ m'
Reaches rt (suc n) m m' = (next : Machine) × (step rt m ≡ running next) × Reaches rt n next m'

pub run-Reaches :
    (rt : Runtime) (n : ℕ) (m m' : Machine) → Reaches rt n m m' → run n rt m ≡ running m'
unfolding run Reaches
run-Reaches rt zero m m' e = ap running e
run-Reaches rt (suc n) m m' (next, s, r) =
    ap (λ (o : Outcome). elim o [ running x ↦ run n rt x | result ↦ result ]) s
    ∙ run-Reaches rt n next m' r

-- One step more.
pub Reaches-step :
    (rt : Runtime) (n : ℕ) (m m' m'' : Machine)
    → Reaches rt n m m'
    → step rt m' ≡ running m''
    → Reaches rt (suc n) m m''
unfolding Reaches
Reaches-step rt zero m m' m'' e s = (m'', ap (step rt) e ∙ s, refl)
Reaches-step rt (suc n) m m' m'' (next, t, r) s = (next, t, Reaches-step rt n next m' m'' r s)

pub Reaches-trans :
    (rt : Runtime) (j k : ℕ) (m m' m'' : Machine)
    → Reaches rt j m m'
    → Reaches rt k m' m''
    → (n : ℕ) × Reaches rt n m m''
unfolding Reaches
Reaches-trans rt zero k m m' m'' e r = (k, subst (λ x. Reaches rt k x m'') (sym e) r)
Reaches-trans rt (suc j) k m m' m'' (next, t, q) r =
    let (n, all) = Reaches-trans rt j k next m' m'' q r in (suc n, (next, t, all))
