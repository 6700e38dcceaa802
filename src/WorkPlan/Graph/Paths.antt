-- ===== src/WorkPlan/Graph/Paths.antt =====
-- Paths from a node to its ancestors, and the nodes from which every walk ends.
use mathlib.Core.List.{Memᴰ}
use changesaga.Prelude.{Text}
use changesaga.WorkPlan.Graph.{Graph, parents_of}

abbrev pub Edge : Graph → Text → Text → Type 0
Edge g n p = Memᴰ p (parents_of g n)

-- At least one edge.
pub data Walk (g : Graph) : Text → Text → Type 0 where
  last : {a b : Text} → Edge g a b → Walk g a b
  first : {a b c : Text} → Edge g a b → Walk g b c → Walk g a c

pub data Ends (g : Graph) : Text → Type 0 where
  ends : {n : Text} → ((p : Text) → Edge g n p → Ends g p) → Ends g n

-- A node that is its own ancestor.
abbrev pub Cycle : Graph → Type 0
Cycle g = (n : Text) × Walk g n n

module _ {g : Graph} where
  pub extend : {a b c : Text} → Walk g a b → Edge g b c → Walk g a c
  extend (last e) f = first e (last f)
  extend (first d p) f = first d (extend p f)

  pub join : {a b c : Text} → Walk g a b → Walk g b c → Walk g a c
  join (last e) q = first e q
  join (first e p) q = first e (join p q)

  -- No ancestor of a node from which every walk ends is the node itself.
  pub Ends-no_return : {n : Text} → Ends g n → Walk g n n → ⊥
  Ends-no_return (ends h) (last e) = Ends-no_return (h _ e) (last e)
  Ends-no_return (ends h) (first e p) = Ends-no_return (h _ e) (extend p e)
