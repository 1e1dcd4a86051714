-- ===== src/Analyst/Deadline.antt =====
-- What a round asks the firewall for at the turn of one case.
use arbiter_ai.Base.{
  String, ◌≡◌, refl, Bool, true, false, ◌&&◌, Option, none, some, List, Among, find_first,
  Bool-cases, Option-cases, inl, inr, &&-left, &&-right,
}
use arbiter_ai.Values.{Runtime, equals}
use arbiter_ai.Protection.{Finding, Store, Action, is_executed}
use arbiter_ai.Protection.Asked.{approve-asks, AsksAtMost}
use arbiter_ai.Analyst.Engine.{Brief}
use arbiter_ai.Analyst.Cases.{L2Case, waiting, L2Workflow, is_waiting, save_case, l2_actor}
use arbiter_ai.Analyst.Due.{
  Desk, Watch, detail_of, may_act, struck, strike, begun, approval, authorized, carried_out,
  decide_case, recent_proposal, aged_case, judge_case, due_case, has_come, followed, own_l2_action,
  meet_case, was_executed, alerted, reports_end,
}
use arbiter_ai.Analyst.Growth.{Grows, Grows-still, Grows-asked, choose-Grows, Careful}
use arbiter_ai.Analyst.Permitted.{
  IsPermitted, IsProven, authorized-IsProven, has_come-elim, may_act-elim, permits-elim,
  recent-elim, waiting-elim,
}

module _ {F A N : Type 0} ⦃py : Runtime F⦄ (desk : Desk F A N) (watch : Watch F) where
  module _ (cases : List (L2Case F)) (stopped : Bool) where
    struck-Grows :
        (c : L2Case F) (r : Option (List Action) × Store) (target : String) (w v : L2Workflow F)
        → v.stopped ≡ w.stopped
        → AsksAtMost (watch.moment c.id).fresh_id target w.store r.1
        → IsPermitted desk watch cases stopped target
        → Grows (IsPermitted desk watch cases stopped) w (struck desk watch c r v).1
    unfolding save_case
    struck-Grows c (none, s) target w v same asked h =
        Grows-asked (IsPermitted desk watch cases stopped) (watch.moment c.id).fresh_id target w _
          same asked h
    struck-Grows c (some actions, s) target w v same asked h =
        elim (Option-cases (find_first (λ (a : Action). is_executed a.status) actions)) [
          | inl missing ↦
              rw (missing, struck)
                (Grows-asked (IsPermitted desk watch cases stopped) (watch.moment c.id).fresh_id
                  target w _ same asked h)
          | inr (a, found) ↦
              rw (found, struck)
                (Grows-asked (IsPermitted desk watch cases stopped) (watch.moment c.id).fresh_id
                  target w _ same asked h)
        ]

    strike-Grows :
        (c : L2Case F) (row : Finding F) (target : String) (w : L2Workflow F)
        → IsPermitted desk watch cases stopped target
        → Grows (IsPermitted desk watch cases stopped) w (strike desk watch c row target w).1
    unfolding strike save_case
    strike-Grows c row target w h =
        struck-Grows c (approval desk watch c row target (begun desk watch c w).store) target w
          (begun desk watch c w) refl
          (approve-asks desk.ip desk.machine desk.firewall desk.config (watch.moment c.id)
            c.event_id l2_actor target (some row) (begun desk watch c w).store)
          h

    save-Grows :
        (c : L2Case F) (body : String) (w : L2Workflow F)
        → Grows (IsPermitted desk watch cases stopped) w (save_case c body w)
    unfolding save_case
    save-Grows c body w = Grows-still (IsPermitted desk watch cases stopped) w _ refl refl

    carried_out-Grows :
        (o : Option Bool) (c : L2Case F) (row : Finding F) (target : String) (w : L2Workflow F)
        → (o ≡ some true → IsPermitted desk watch cases stopped target)
        → Grows (IsPermitted desk watch cases stopped) w (carried_out desk watch o c row target w).1
    carried_out-Grows none c row target w h =
        Grows-still (IsPermitted desk watch cases stopped) w w refl refl
    carried_out-Grows (some false) c row target w h = save-Grows _ _ w
    carried_out-Grows (some true) c row target w h = strike-Grows c row target w (h refl)

    decide_case-Grows :
        (o : Option String) (c : L2Case F) (brief : Brief F) (row : Finding F) (w : L2Workflow F)
        → w.stopped ≡ stopped
        → ((target : String)
            → o ≡ some target
            → may_act desk watch stopped brief ≡ true
            → IsProven desk watch c brief row target
            → IsPermitted desk watch cases stopped target)
        → Grows (IsPermitted desk watch cases stopped) w (decide_case desk watch o c brief row w).1
    unfolding decide_case
    decide_case-Grows none c brief row w same h = save-Grows _ _ w
    decide_case-Grows (some target) c brief row w same h =
        elim (Bool-cases (may_act desk watch w.stopped brief)) [
          | inr barred ↦ rw barred (save-Grows _ _ w)
          | inl may ↦ elim (Bool-cases (equals brief.target target)) [
            | inr other ↦ rw (may, other) (save-Grows _ _ w)
            | inl agrees ↦
                rw (may, agrees)
                  (carried_out-Grows (authorized desk watch c brief row target) c row target w (λ e.
                    h target refl (rw same at may)
                      (authorized-IsProven desk watch c brief row target e)))
          ]
        ]

    judge-Grows :
        (o : Option (Finding F)) (c : L2Case F) (brief : Brief F) (deadline : F) (w : L2Workflow F)
        → w.stopped ≡ stopped
        → Among c cases
        → detail_of desk watch c.event_id ≡ o
        → c.state ≡ waiting
        → c.deadline ≡ some deadline
        → py.lt (watch.due c.id) deadline ≡ false
        → c.brief ≡ some brief
        → Grows (IsPermitted desk watch cases stopped) w (judge_case desk watch o c brief w).1
    judge-Grows none c brief deadline w same among known waits limited reached advised =
        Grows-still (IsPermitted desk watch cases stopped) w w refl refl
    judge-Grows (some row) c brief deadline w same among known waits limited reached advised =
        elim (Option-cases (desk.timestamp row.event.timestamp)) [
          | inl undated ↦
              rw (undated, aged_case)
                (Grows-still (IsPermitted desk watch cases stopped) w w refl refl)
          | inr (seconds, dated) ↦
              rw (dated, aged_case)
                (decide_case-Grows (recent_proposal desk watch c seconds row) c brief row w same
                  (λ target offered may proven.
                    let (fresh, proposed) = recent-elim desk watch c seconds row target offered in
                    let (live, permits, confident) = may_act-elim desk watch stopped brief may in
                    let (automatic, rule, ruled, enrolled) =
                      permits-elim desk watch brief permits in
                    record {
                      live = live;
                      subject = c;
                      among = among;
                      waits = waits;
                      deadline = deadline;
                      limited = limited;
                      reached = reached;
                      brief = brief;
                      advised = advised;
                      automatic = automatic;
                      rule = rule;
                      ruled = ruled;
                      enrolled = enrolled;
                      confident = confident;
                      row = row;
                      known = known;
                      seconds = seconds;
                      dated = dated;
                      present =
                          &&-left (py.le (py.lit 0 1) (py.sub (watch.aged c.id) seconds)) _ fresh;
                      recent =
                          &&-right (py.le (py.lit 0 1) (py.sub (watch.aged c.id) seconds)) _ fresh;
                      proposed = proposed;
                      proven = proven;
                    }))
        ]

    alerted-Grows :
        (c : L2Case F) (w : L2Workflow F)
        → Grows (IsPermitted desk watch cases stopped) w (alerted desk watch c w)
    alerted-Grows c w =
        choose-Grows (IsPermitted desk watch cases stopped) c.deadline_alerted w w _
          (Grows-still (IsPermitted desk watch cases stopped) w w refl refl) (save-Grows _ _ w)

    followed-Grows :
        (o : Option Action) (c : L2Case F) (w : L2Workflow F)
        → Grows (IsPermitted desk watch cases stopped) w (followed desk watch o c w)
    followed-Grows none c w = Grows-still (IsPermitted desk watch cases stopped) w w refl refl
    followed-Grows (some a) c w = elim (Bool-cases (reports_end a.status)) [
      | inl over ↦ rw over (save-Grows _ _ w)
      | inr lasts ↦ rw lasts (Grows-still (IsPermitted desk watch cases stopped) w w refl refl)
    ]

    due-Grows :
        (o : Option (Brief F)) (c : L2Case F) (deadline : F) (w : L2Workflow F)
        → w.stopped ≡ stopped
        → Among c cases
        → c.brief ≡ o
        → c.state ≡ waiting
        → c.deadline ≡ some deadline
        → py.lt (watch.due c.id) deadline ≡ false
        → Grows (IsPermitted desk watch cases stopped) w (due_case desk watch o c w).1
    due-Grows none c deadline w same among advised waits limited reached = alerted-Grows c w
    due-Grows (some brief) c deadline w same among advised waits limited reached =
        judge-Grows (detail_of desk watch c.event_id) c brief deadline w same among refl waits
          limited reached advised

    -- A round asks at a case's turn for no block, or for one that is permitted.
    pub meet_case-Grows :
        (c : L2Case F)
        → Among c cases
        → Careful (IsPermitted desk watch cases stopped) stopped (meet_case desk watch c)
    unfolding meet_case
    meet_case-Grows c among w same = elim (Bool-cases (was_executed c.state)) [
      | inl ended ↦ rw ended (followed-Grows (own_l2_action desk watch c w) c w)
      | inr other ↦
          elim (Bool-cases
            (is_waiting c.state && has_come desk watch (watch.due c.id) c.deadline)) [
              | inr early ↦
                  rw (other, early)
                    (Grows-still (IsPermitted desk watch cases stopped) w w refl refl)
              | inl due ↦
                  let (deadline, limited, reached) =
                    has_come-elim desk watch (watch.due c.id) c.deadline
                      (&&-right (is_waiting c.state) _ due) in
                  rw (other, due)
                    (due-Grows c.brief c deadline w same among refl
                      (waiting-elim c.state (&&-left _ _ due)) limited reached)
            ]
    ]
