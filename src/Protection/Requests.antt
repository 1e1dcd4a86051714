-- ===== src/Protection/Requests.antt =====
-- Every sequence of requests to a Protection keeps its store safe.
use arbiter_ai.Base.{String, Option, List, [], ◌∷◌}
use arbiter_ai.Values.{Runtime}
use arbiter_ai.Containment.{Addresses}
use arbiter_ai.Protection.{Machine, Finding, Firewall, Store, Config}
use arbiter_ai.Protection.Operations.{Moment, Clock, approve, undo, reconcile}
use arbiter_ai.Protection.Commands.{IsSafe}
use arbiter_ai.Protection.Undoings.{reconcile-IsSafe, undo-IsSafe}
use arbiter_ai.Protection.Approvals.{approve-IsSafe}

-- what is asked of one `Protection`
pub data Request (F : Type 0) : Type 0 where
  approving : Machine F → Moment → String → String → Option String → Option (Finding F) → Request F
  undoing : String → String → String → Request F
  recovering : Clock → Request F

module _ {F A N : Type 0} ⦃py : Runtime F⦄ (ip : Addresses A N) (firewall : Firewall)
    (config : Config N) where
  abbrev pub serve : Request F → Store → Store
  serve (approving machine m event_id actor expected row) s =
      (approve ip machine firewall config m event_id actor expected row s).1
  serve (undoing now id actor) s = (undo firewall config.verify now id actor s).1
  serve (recovering clock) s = reconcile ip firewall config clock s

  abbrev pub serve_all : List (Request F) → Store → Store
  serve_all [] s = s
  serve_all (r ∷ rest) s = serve_all rest (serve r s)

  serve-IsSafe :
      (r : Request F) (s : Store)
      → IsSafe ip firewall config s
      → IsSafe ip firewall config (serve r s)
  serve-IsSafe (approving machine m event_id actor expected row) s h =
      approve-IsSafe ip firewall config machine m event_id actor expected row s h
  serve-IsSafe (undoing now id actor) s h =
      undo-IsSafe ip firewall config config.verify now id actor s h
  serve-IsSafe (recovering clock) s h = reconcile-IsSafe ip firewall config clock s h

  -- From a safe store, after any sequence of approvals, undoings and recoveries and whatever the
  -- firewall answers, every block it was asked for concerns an address that may be blocked, and every
  -- action that counts as executed had its block taken and, where blocks are verified, confirmed.
  -- With a scope, such an address is ordinary, within an allowed network and none of the protected ones,
  -- and, in a version 4 network of more than two addresses, neither the network's own nor its broadcast
  -- address; without a scope it is global.
  pub serve_all-IsSafe :
      (rs : List (Request F)) (s : Store)
      → IsSafe ip firewall config s
      → IsSafe ip firewall config (serve_all rs s)
  serve_all-IsSafe [] s h = h
  serve_all-IsSafe (r ∷ rest) s h = serve_all-IsSafe rest (serve r s) (serve-IsSafe r s h)
