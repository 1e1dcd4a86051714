-- ===== src/Respond/Catalog/Safe.antt =====
-- What the planners promise of a proposal that is safe to run without a human.
use arbiter_ai.Base.{
  String, ◌≡◌, ◌<>◌, inl, inr, refl, true, false, some, List, [], ◌∷◌, ◌++◌, ◌==◌, if◌then◌else◌,
  Among, Bool-cases, Option-cases, eq_iff,
}
use arbiter_ai.Values.{Runtime}
use arbiter_ai.Schema.{Event}
use arbiter_ai.Respond.Catalog.{
  Proposal, block_ip, kill_session, lock_account, kill_process, quarantine_host, named,
  plan_bruteforce, geo_account, geo_source, plan_geo, mass_process, plan_ransomware,
  plan_rogue_account, proposals,
}

module _ {F : Type 0} ⦃py : Runtime F⦄ where
  -- An action on the one thing that the event names, with its command: a source address for an hour, an
  -- account, a process, or the event's own host for an hour. The rule that counts connections is the
  -- one without a named source; its hour is in the proposal and not in the command.
  pub data Surgical (e : Event F) (p : Proposal) : Type 0 where
    on_source :
        p.kind ≡ block_ip
        → named "src_ip" e ≡ some p.target
        → p.ttl_minutes ≡ some 60
        → p.command ≡ "nft add element inet arbiter blocked { " <> (p.target <> " timeout 60m }")
        → Surgical e p
    on_session :
        p.kind ≡ kill_session
        → named "user" e ≡ some p.target
        → p.command ≡ "loginctl terminate-user " <> p.target
        → Surgical e p
    on_account :
        p.kind ≡ lock_account
        → named "user" e ≡ some p.target
        → p.command ≡ "usermod --lock " <> p.target
        → Surgical e p
    on_process :
        p.kind ≡ kill_process
        → named "binary" e ≡ some p.target
        → p.command ≡ "pkill -KILL -f " <> p.target
        → Surgical e p
    on_host :
        e.event_type ≡ "mass_file_rename"
        → p.kind ≡ quarantine_host
        → p.target ≡ e.host
        → p.ttl_minutes ≡ some 60
        → p.command ≡ "arbiter-agent quarantine " <> (e.host <> " --ttl 60m")
        → Surgical e p
    capped :
        e.event_type ≡ "conn_exhaustion"
        → p.kind ≡ block_ip
        → p.target ≡ "offending connection sources"
        → p.ttl_minutes ≡ some 60
        → p.command ≡ "nft add rule inet arbiter input ct count over 20 counter drop"
        → Surgical e p

  -- what a list of proposals promises
  abbrev Safe : Event F → List Proposal → Type 0
  Safe e ps = (p : Proposal) → Among p ps → p.auto_safe ≡ true → Surgical e p

  append-Safe : (e : Event F) (ps qs : List Proposal) → Safe e ps → Safe e qs → Safe e (ps ++ qs)
  append-Safe e [] qs h k p i s = k p i s
  append-Safe e (q ∷ ps) qs h k p (inl here) s = h p (inl here) s
  append-Safe e (q ∷ ps) qs h k p (inr later) s =
      append-Safe e ps qs (λ p' i. h p' (inr i)) k p later s

  one-Safe : (e : Event F) (q : Proposal) → Surgical e q → Safe e (q ∷ [])
  one-Safe e q h p (inl here) s = rw here h
  one-Safe e q h p (inr none_left) s = absurd none_left

  plan_bruteforce-Safe : (e : Event F) → Safe e (plan_bruteforce e)
  unfolding plan_bruteforce
  plan_bruteforce-Safe e = elim (Option-cases (named "src_ip" e)) [
    | inl unnamed ↦ rw (unnamed, plan_bruteforce) (λ p i s. absurd i)
    | inr (ip, names) ↦ rw (names, plan_bruteforce) (one-Safe e _ (on_source refl names refl refl))
  ]

  geo_source-Safe : (e : Event F) → Safe e (geo_source e)
  unfolding geo_source
  geo_source-Safe e = elim (Option-cases (named "src_ip" e)) [
    | inl unnamed ↦ rw (unnamed, geo_source) (λ p i s. absurd i)
    | inr (ip, names) ↦ rw (names, geo_source) (one-Safe e _ (on_source refl names refl refl))
  ]

  geo_account-Safe : (e : Event F) → Safe e (geo_account e)
  unfolding geo_account
  geo_account-Safe e = elim (Option-cases (named "user" e)) [
    | inl unnamed ↦ rw (unnamed, geo_account) (λ p i s. absurd i)
    | inr (user, names) ↦
        rw (names, geo_account)
          (append-Safe e (_ ∷ []) (_ ∷ []) (one-Safe e _ (on_session refl names refl))
            (one-Safe e _ (on_account refl names refl)))
  ]

  mass_process-Safe : (e : Event F) → Safe e (mass_process e)
  unfolding mass_process
  mass_process-Safe e = elim (Option-cases (named "binary" e)) [
    | inl unnamed ↦ rw (unnamed, mass_process) (λ p i s. absurd i)
    | inr (binary, names) ↦ rw (names, mass_process) (one-Safe e _ (on_process refl names refl))
  ]

  plan_rogue_account-Safe : (e : Event F) → Safe e (plan_rogue_account e)
  unfolding plan_rogue_account
  plan_rogue_account-Safe e = elim (Option-cases (named "user" e)) [
    | inl unnamed ↦ rw (unnamed, plan_rogue_account) (λ p i s. absurd i)
    | inr (user, names) ↦ rw (names, plan_rogue_account) (one-Safe e _ (on_account refl names refl))
  ]

  unsafe-Safe : (e : Event F) (q : Proposal) → q.auto_safe ≡ false → Safe e (q ∷ [])
  unsafe-Safe e q h p (inl here) s = absurd (cc (h, here, s))
  unsafe-Safe e q h p (inr none_left) s = absurd none_left

  choose-Safe :
      (e : Event F) (kind : String) (ps qs : List Proposal)
      → (e.event_type ≡ kind → Safe e ps)
      → Safe e qs
      → Safe e (if e.event_type == kind then ps else qs)
  choose-Safe e kind ps qs h k = elim (Bool-cases (e.event_type == kind)) [
    | inl same ↦ rw same (h ((eq_iff _ _).0 same))
    | inr other ↦ rw other k
  ]

  -- Every proposal that the catalog marks as safe to run without a human is surgical.
  pub proposals-Safe :
      (e : Event F) (p : Proposal) → Among p (proposals e) → p.auto_safe ≡ true → Surgical e p
  unfolding proposals
  proposals-Safe e =
      choose-Safe e _ _ _ (λ _. plan_bruteforce-Safe e)
        (choose-Safe e _ _ _ (λ _. geo)
          (choose-Safe e _ _ _ (λ _. geo)
            (choose-Safe e _ _ _ ransomware (
              choose-Safe e _ _ _ (λ _. unsafe-Safe e _ refl)
                (choose-Safe e _ _ _ (λ _. unsafe-Safe e _ refl)
                  (choose-Safe e _ _ _ (λ _. unsafe-Safe e _ refl)
                    (choose-Safe e _ _ _ (λ t. one-Safe e _ (capped t refl refl refl refl))
                      (choose-Safe e _ _ _ (λ _. plan_rogue_account-Safe e)
                        (λ p i s. absurd i)))))))))
    where
      geo : Safe e (plan_geo e)
      geo = append-Safe e (geo_account e) (geo_source e) (geo_account-Safe e) (geo_source-Safe e)

      ransomware : e.event_type ≡ "mass_file_rename" → Safe e (plan_ransomware e)
      ransomware t =
          append-Safe e (mass_process e) _ (mass_process-Safe e)
            (one-Safe e _ (on_host t refl refl refl refl))
