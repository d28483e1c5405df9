-- ===== src/Classifier/Engine/Offline.antt =====
-- Which agents `_offline_findings` reports.
use local_network_kafka_moni.Base.{
  ◌+◌, ◌*◌, String, ◌≡◌, refl, sym, ap, ◌∙◌, ◌↔◌, inl, inr, Bool, true, false, not, ◌&&◌, ◌||◌,
  List, [], ◌∷◌, map, none, some, All, ltb, any, all, nonempty, filter, Bool-cases, Option-cases,
  mem_text, str_eq, sorted_set, eq_iff, sorted_set-ne-nil, sorted_set-nil, mem_text-sorted_set,
  arith,
}
use local_network_kafka_moni.Classifier.Models.{Time, HeartbeatSummary, agent_offline, Platform}
use local_network_kafka_moni.Classifier.Config.{ClassifierConfig}
use local_network_kafka_moni.Classifier.Engine.Build.{
  is_recent, recent_agents, skips, offline_finding, offline_loop, offline_findings,
}

filter-absent :
    (a : String) (xs : List String)
    → mem_text a xs ≡ false
    → filter (λ agent. not (str_eq agent a)) xs ≡ xs
filter-absent a [] h = refl
filter-absent a (x ∷ xs) h = ground (arith, filter-absent a xs)

module _ {R : Type 0} (platform : Platform) (config : ClassifierConfig R) (at : Time) where
  -- The last heartbeat is missing, or older than the limit.
  abbrev pub is_late : HeartbeatSummary → Bool
  is_late h = elim h.last_event_time [
    | none ↦ true
    | some last ↦ ltb (last + config.heartbeat_stale_seconds * 1000000) at
  ]

  -- The agent has a row, each of its rows is late, and some row of an agent is not.
  pub record IsOffline (heartbeats : List HeartbeatSummary) (agent : String) : Type 0 where
    pub listed : any (λ h. str_eq h.agent_id agent) heartbeats ≡ true
    pub late : all (λ h. not (str_eq h.agent_id agent) || is_late h) heartbeats ≡ true
    pub others : any (λ h. not (is_late h)) heartbeats ≡ true

  is_recent_late : (h : HeartbeatSummary) → is_recent platform config at h ≡ not (is_late h)
  unfolding is_recent
  is_recent_late h = elim (Option-cases h.last_event_time) [
    | inl e ↦ rw e refl
    | inr (last, e) ↦ rw e (ground arith)
  ]

  recent-mem :
      (agent : String) (heartbeats : List HeartbeatSummary)
      → mem_text agent (map (λ h. h.agent_id) (filter (is_recent platform config at) heartbeats))
        ≡ not (all (λ h. not (str_eq h.agent_id agent) || is_late h) heartbeats)
  recent-mem agent [] = refl
  recent-mem agent (h ∷ rest) = elim (Bool-cases (is_late h)) [
    | inl e ↦ rw (is_recent_late h, e, recent-mem agent rest) (ground arith)
    | inr e ↦ rw (is_recent_late h, e, recent-mem agent rest) (ground arith)
  ]

  nonempty-set : (xs : List String) → nonempty (sorted_set xs) ≡ nonempty xs
  nonempty-set [] = ap nonempty sorted_set-nil
  nonempty-set (x ∷ xs) = elim (Bool-cases (nonempty (sorted_set (x ∷ xs)))) [
    | inl e ↦ e
    | inr e ↦ absurd (sorted_set-ne-nil x xs (nil_of (sorted_set (x ∷ xs)) e))
  ]
    where
      nil_of : (ys : List String) → nonempty ys ≡ false → ys ≡ []
      nil_of [] h = refl
      nil_of (y ∷ ys) h = cc

  nonempty-recent :
      (heartbeats : List HeartbeatSummary)
      → nonempty (map (λ h. h.agent_id) (filter (is_recent platform config at) heartbeats))
        ≡ any (λ h. not (is_late h)) heartbeats
  nonempty-recent [] = refl
  nonempty-recent (h ∷ rest) = elim (Bool-cases (is_late h)) [
    | inl e ↦ rw (is_recent_late h, e) (nonempty-recent rest)
    | inr e ↦ rw (is_recent_late h, e) refl
  ]

  -- Behind the early return the second half of the `continue` test never matters.
  skips-mem :
      (recent : List String) (h : HeartbeatSummary)
      → nonempty recent ≡ true
      → skips platform config at recent h ≡ mem_text h.agent_id recent
  unfolding skips
  skips-mem recent h some_recent = elim (Bool-cases (mem_text h.agent_id recent)) [
    | inl e ↦ rw e
    | inr e ↦ rw (e, filter-absent h.agent_id recent e, some_recent)
  ]

  loop-reports :
      (recent : List String) (agent : String) (heartbeats : List HeartbeatSummary)
      → nonempty recent ≡ true
      → any
          (λ f. mem_text agent f.affected_agents)
          (offline_loop platform config at recent heartbeats)
        ≡ (any (λ h. str_eq h.agent_id agent) heartbeats && not (mem_text agent recent))
  unfolding offline_loop offline_finding
  loop-reports recent agent [] some_recent = refl
  loop-reports recent agent (h ∷ rest) some_recent =
      let later = loop-reports recent agent rest some_recent in
      elim (Bool-cases (str_eq h.agent_id agent)) [
        | inl same ↦
            let alike : mem_text h.agent_id recent ≡ mem_text agent recent =
              ap (λ a. mem_text a recent) ((eq_iff h.agent_id agent).0 same) in
            elim (Bool-cases (mem_text agent recent)) [
              | inl e ↦
                  rw (skips-mem recent h some_recent, alike, e) (later ∙ (rw e (ground arith)))
              | inr e ↦ rw (skips-mem recent h some_recent, alike, e, same) refl
            ]
        | inr other ↦ elim (Bool-cases (mem_text h.agent_id recent)) [
          | inl e ↦ rw (skips-mem recent h some_recent, e, other) later
          | inr e ↦ rw (skips-mem recent h some_recent, e, other) later
        ]
      ]

  loop-types :
      (recent : List String) (heartbeats : List HeartbeatSummary)
      → All
          (λ f. f.incident_type ≡ agent_offline)
          (offline_loop platform config at recent heartbeats)
  unfolding offline_loop offline_finding
  loop-types recent [] = tt
  loop-types recent (h ∷ rest) = elim (Bool-cases (skips platform config at recent h)) [
    | inl e ↦ rw e (loop-types recent rest)
    | inr e ↦ rw e (refl, loop-types recent rest)
  ]

  findings-reports :
      (agent : String) (heartbeats : List HeartbeatSummary)
      → any (λ f. mem_text agent f.affected_agents) (offline_findings platform config at heartbeats)
        ≡ (any (λ h. not (is_late h)) heartbeats
            && (any (λ h. str_eq h.agent_id agent) heartbeats
                && all (λ h. not (str_eq h.agent_id agent) || is_late h) heartbeats))
  unfolding offline_findings recent_agents
  findings-reports agent heartbeats =
      let ids = map (λ h. h.agent_id) (filter (is_recent platform config at) heartbeats) in
      let some_late = nonempty-recent heartbeats in
      let seen = mem_text-sorted_set agent ids ∙ recent-mem agent heartbeats in
      elim (Bool-cases (nonempty (sorted_set ids))) [
        | inl e ↦
            let one : any (λ h. not (is_late h)) heartbeats ≡ true =
              sym some_late ∙ sym (nonempty-set ids) ∙ e in
            rw (e, one)
              (loop-reports (sorted_set ids) agent heartbeats e ∙ (rw seen (ground arith)))
        | inr e ↦
            let no_one : any (λ h. not (is_late h)) heartbeats ≡ false =
              sym some_late ∙ sym (nonempty-set ids) ∙ e in
            rw (e, no_one) refl
      ]

  -- The findings about offline agents are all of that type, and an agent is among their affected agents exactly when it has
  -- a row of heartbeats, each of its rows has no heartbeat or one older than `heartbeat_stale_seconds`, and some row, which
  -- is then of another agent, has one that is not older.
  pub offline_findings-IsOffline :
      (heartbeats : List HeartbeatSummary) (agent : String)
      → ((any
              (λ f. mem_text agent f.affected_agents)
              (offline_findings platform config at heartbeats)
            ≡ true)
          ↔ IsOffline heartbeats agent)
        × All
            (λ f. f.incident_type ≡ agent_offline)
            (offline_findings platform config at heartbeats)
  unfolding offline_findings
  offline_findings-IsOffline heartbeats agent =
      let same = findings-reports agent heartbeats in
      (
        (
          (λ h.
              let k = sym same ∙ h in
              record {
                listed = ground (arith, k);
                late = ground (arith, k);
                others = ground (arith, k);
              }),
          (λ o. same ∙ (rw (o.others, o.listed, o.late) refl)),
        ),
        elim (Bool-cases (nonempty (recent_agents platform config at heartbeats))) [
          | inl e ↦ rw e (loop-types (recent_agents platform config at heartbeats) heartbeats)
          | inr e ↦ rw e tt
        ],
      )
