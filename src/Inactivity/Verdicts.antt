-- ===== src/Inactivity/Verdicts.antt =====
-- When a mark sends a peer to the greylist, in terms of the reports that the monitor has heard.
use dyphira_chain.Common.{
  ℕ, ◌≡◌, ◌-◌, refl, sym, ap, subst, ◌∙◌, Bool, true, ◌||◌, ◌&&◌, List, [], ◌∷◌, ◌++◌, map, some,
  length, get_elem?, leb, ltb, ◌==◌, if◌then◌else◌,
}
use dyphira_chain.Common.Distinct.{distinct, length-distinct}
use dyphira_chain.Common.Dict.{Dict, lookup, has}
use dyphira_chain.Bar.Peers.{PeerId, greylisted}
use dyphira_chain.Bar.Invariant.{IsValid}
use dyphira_chain.Bar.Moves.{status_of}
use dyphira_chain.Network.{Host}
use dyphira_chain.Inactivity.{
  InactivityMessage, InactivityRecord, InactivityMonitor, record_inactivity, is_overdue,
  handle_mark_inactive,
}
use dyphira_chain.Inactivity.Records.{
  Report, record_all, about, Summarises, Recorded, record_all_lem,
}
use dyphira_chain.Inactivity.Marks.{
  marked, is_inactive, handle_mark_inactive_lem, handle_mark_eq, marked_found,
}

-- The time of the first report.
abbrev pub first_time : List Report → ℕ
first_time [] = 0
first_time (r ∷ rs) = r.time

-- The reports name enough different reporters, or are five and began more than ten minutes ago.
abbrev pub verdict : (threshold : ℕ) → List Report → (now : ℕ) → Bool
verdict threshold rs now =
    leb threshold (length (distinct (map (λ r. r.reporter) rs)))
    || leb 5 (length rs) && ltb 600000000000 (now - first_time rs)

first_time_lem :
    (rs : List Report) (t : ℕ) → get_elem? (map (λ r. r.time) rs) 0 ≡ some t → t ≡ first_time rs
first_time_lem [] t e = cc
first_time_lem (r ∷ rs) t e = cc

is_overdue_lem :
    (p : PeerId) (rs : List Report) (x : InactivityRecord) (threshold now : ℕ)
    → Summarises p rs x
    → is_overdue threshold x now ≡ verdict threshold rs now
is_overdue_lem p rs x threshold now s =
    rw
      (
        length-distinct x.reporters (map (λ r. r.reporter) rs) s.distinct s.heard,
        s.counted,
        first_time_lem rs x.first_reported s.first,
      )
      refl

record_all-append :
    (d : Dict InactivityRecord) (rs : List Report) (r : Report)
    → record_all d (rs ++ r ∷ [])
      ≡ record_inactivity (record_all d rs) r.peer r.reporter r.reason r.evidence r.time
unfolding record_all
record_all-append d [] r = refl
record_all-append d (x ∷ rs) r =
    record_all-append (record_inactivity d x.peer x.reporter x.reason x.evidence x.time) rs r

-- The report that a mark is.
abbrev pub report_of : InactivityMessage → (now : ℕ) → Report
report_of m now = record {
  peer = m.target_peer;
  reporter = m.from;
  reason = m.reason;
  evidence = m.evidence;
  time = now;
}

module _ (published : InactivityMessage → Bool) (host : Host) (im : InactivityMonitor)
    (m : InactivityMessage) (now : ℕ) (rs : List Report) where
  -- The reports on the marked peer, with the mark.
  abbrev pub heard_on : List Report
  heard_on = about m.target_peer (rs ++ report_of m now ∷ [])

  is_inactive_lem :
      im.records ≡ record_all [] rs
      → is_inactive host im m now ≡ verdict im.seed_node_threshold heard_on now
  is_inactive_lem e =
      let records : record_all [] (rs ++ report_of m now ∷ [])
          ≡ record_inactivity im.records m.target_peer m.from m.reason m.evidence now =
        record_all-append [] rs (report_of m now)
        ∙ ap (λ d. record_inactivity d m.target_peer m.from m.reason m.evidence now) (sym e) in
      let found : lookup m.target_peer (record_all [] (rs ++ report_of m now ∷ []))
          ≡ some (marked host im m now) =
        ap (lookup m.target_peer) records ∙ marked_found published host im m now in
      is_overdue_lem m.target_peer heard_on (marked host im m now) im.seed_node_threshold now (
        subst (Recorded m.target_peer heard_on) found
          (record_all_lem m.target_peer (rs ++ report_of m now ∷ [])))

  -- A mark that reaches a seed node, whose lists of peers are valid and whose records are those of
  -- some reports, is one more report, whoever sent it. If the reports on the peer then name as many
  -- different reporters as the threshold, or are five and began more than ten minutes ago, a
  -- whitelisted peer goes to the greylist; no other status changes.
  pub mark_verdict :
      IsValid im.bar
      → im.host ≡ some host
      → m.to ≡ host.id
      → im.is_seed_node ≡ true
      → im.records ≡ record_all [] rs
      → let after = handle_mark_inactive published im m now in
        (after.records ≡ record_all [] (rs ++ report_of m now ∷ []))
        × ((q : PeerId)
            → status_of after.bar q ≡ (
                if verdict im.seed_node_threshold heard_on now
                  && (m.target_peer == q && has m.target_peer im.bar.whitelist)
                then some greylisted
                else status_of im.bar q))
  mark_verdict v e to seed known =
      let (_, statuses, _) = handle_mark_inactive_lem published host im m now v e to seed in
      (
        ap (λ x. x.records) (handle_mark_eq published host im m now e to seed)
            ∙ ap (λ d. record_inactivity d m.target_peer m.from m.reason m.evidence now) known
            ∙ sym (record_all-append [] rs (report_of m now)),
        (λ q.
            subst
              (λ b. status_of (handle_mark_inactive published im m now).bar q ≡ (
                if b && (m.target_peer == q && has m.target_peer im.bar.whitelist)
                then some greylisted
                else status_of im.bar q))
              (is_inactive_lem known) (statuses q)),
      )
