-- ===== src/Supervisor/Gc/Idle.antt =====
-- What it means for a subtree to be ready, apart from the code: nothing in it is to run.
use monogon.Prelude.{◌≡◌, ◌≢◌, ◌↔◌, refl, true, ◌++◌, some, arith}
use monogon.Supervisor.Tree.{NodeState, Info, Node, TreePath, info_at}
use monogon.Supervisor.Gc.{is_stopped}
use monogon.Supervisor.Gc.Ready.{AllStopped}

-- No node of the subtree is NEW or HEALTHY.
abbrev pub AllIdle : Node → TreePath → Type 0
AllIdle t p =
    (r : TreePath) (i : Info)
    → info_at (p ++ r) t ≡ some i
    → (i.state ≢ NodeState.new) × (i.state ≢ NodeState.healthy)

is_stopped-idle :
    (s : NodeState) → (is_stopped s ≡ true) ↔ ((s ≢ NodeState.new) × (s ≢ NodeState.healthy))
unfolding is_stopped
is_stopped-idle NodeState.new = (λ h. absurd (ground (arith, h)), λ h. absurd (h.0 refl))
is_stopped-idle NodeState.healthy = (λ h. absurd (ground (arith, h)), λ h. absurd (h.1 refl))
is_stopped-idle NodeState.dead = (λ h. (λ e. cc, λ e. cc), λ h. refl)
is_stopped-idle NodeState.done = (λ h. (λ e. cc, λ e. cc), λ h. refl)
is_stopped-idle NodeState.canceled = (λ h. (λ e. cc, λ e. cc), λ h. refl)

pub AllStopped-AllIdle : (t : Node) (p : TreePath) → AllStopped t p ↔ AllIdle t p
AllStopped-AllIdle t p = (
  λ h r i e. (is_stopped-idle i.state).0 (h r i e),
  λ h r i e. (is_stopped-idle i.state).1 (h r i e),
)

pub iff_trans : {A B C : Type 0} → A ↔ B → B ↔ C → A ↔ C
iff_trans f g = (λ a. g.0 (f.0 a), λ c. f.1 (g.1 c))
