-- ===== src/EventBus/Numbering.antt =====
-- The log of a topic: consecutive offsets that end at the next one, in the order of the clock.
use data_nexus.Prelude.{
  ℕ, suc, ◌+◌, ◌-◌, ◌≤◌, String, false, ◌≡◌, refl, sym, ◌==◌, string_eq, List, [], ◌∷◌, ◌++◌,
  length, length-append, filter, leb, eq_iff, if_rule, arith, Bool-cases, inl, inr,
}
use mathlib.Core.Path.{subst}
use text.Mathlib.TextPositions.{eq_refl}
use data_nexus.Prelude.Dict.{lookup_or, lookup-insert, lookup_or-map_values}
use data_nexus.Config.{Settings, days}
use data_nexus.EventBus.Log.{
  EventBus, Message, StoredEvent, prune_expired, publish, store_all, store_event, topic_log,
}

module _ {ℓ} {E : Type ℓ} where
  abbrev pub Numbered : ℕ → List (StoredEvent E) → Type 0
  Numbered n [] = Unit
  Numbered n (e ∷ l) = (e.offset ≡ n) × Numbered (suc n) l

  abbrev pub Ascending : ℕ → List (StoredEvent E) → Type 0
  Ascending t [] = Unit
  Ascending t (e ∷ l) = (t ≤ e.emitted_ts) × Ascending e.emitted_ts l

  abbrev pub Past : ℕ → List (StoredEvent E) → Type 0
  Past now [] = Unit
  Past now (e ∷ l) = (e.emitted_ts ≤ now) × Past now l

  -- The offsets of a topic are consecutive and end before the next offset; the events stand in
  -- the order of their time, which is not after `now`.
  pub record IsLog (now next : ℕ) (l : List (StoredEvent E)) : Type 0 where
    pub start : ℕ
    pub numbered : Numbered start l
    pub ends : start + length l ≡ next
    pub ascending : Ascending 0 l
    pub past : Past now l

  Numbered-append :
      (n : ℕ) (l : List (StoredEvent E)) (e : StoredEvent E)
      → Numbered n l
      → e.offset ≡ n + length l
      → Numbered n (l ++ e ∷ [])
  Numbered-append n [] e h p = (omega arith, tt)
  Numbered-append n (x ∷ l) e h p = (h.0, Numbered-append (suc n) l e h.1 (omega arith))

  Ascending-append :
      (t : ℕ) (l : List (StoredEvent E)) (e : StoredEvent E)
      → Ascending t l
      → Past e.emitted_ts l
      → t ≤ e.emitted_ts
      → Ascending t (l ++ e ∷ [])
  Ascending-append t [] e h p q = (q, tt)
  Ascending-append t (x ∷ l) e h p q = (h.0, Ascending-append x.emitted_ts l e h.1 p.1 p.0)

  Past-append :
      (now : ℕ) (l : List (StoredEvent E)) (e : StoredEvent E)
      → Past now l
      → e.emitted_ts ≤ now
      → Past now (l ++ e ∷ [])
  Past-append now [] e h p = (p, tt)
  Past-append now (x ∷ l) e h p = (h.0, Past-append now l e h.1 p)

  Past-later : (a b : ℕ) (l : List (StoredEvent E)) → a ≤ b → Past a l → Past b l
  Past-later a b [] h p = tt
  Past-later a b (x ∷ l) h p = (omega arith, Past-later a b l h p.1)

  IsLog-append :
      (t now next : ℕ) (l : List (StoredEvent E)) (e : StoredEvent E)
      → t ≤ now
      → e.offset ≡ next
      → e.emitted_ts ≡ now
      → IsLog t next l
      → IsLog now (next + 1) (l ++ e ∷ [])
  IsLog-append t now next l e h p q v = record {
    start = v.start;
    numbered = Numbered-append v.start l e v.numbered (omega (arith, v.ends));
    ends = omega (arith, v.ends, length-append {ℓ} l (e ∷ []));
    ascending =
        Ascending-append 0 l e v.ascending (Past-later t e.emitted_ts l (omega arith) v.past)
          (omega arith);
    past = Past-append now l e (Past-later t now l h v.past) (omega arith);
  }

  -- In an ascending log the events that are young enough stand at the end.
  filter_all :
      (cutoff t : ℕ) (l : List (StoredEvent E))
      → cutoff ≤ t
      → Ascending t l
      → filter (λ e. leb cutoff e.emitted_ts) l ≡ l
  filter_all cutoff t [] h a = refl
  filter_all cutoff t (e ∷ l) h a = ground (arith, filter_all cutoff e.emitted_ts l)

abbrev pub IsTopicLog {ℓ} : {E : Type ℓ} → ℕ → String → EventBus E → Type 0
IsTopicLog now topic b = IsLog now (lookup_or 0 topic b.next_offset) (topic_log topic b)

module _ {ℓ} {E : Type ℓ} where
  IsLog-prune :
      (cutoff n t now : ℕ) (l : List (StoredEvent E))
      → Numbered n l
      → Ascending t l
      → Past now l
      → IsLog now (n + length l) (filter (λ e. leb cutoff e.emitted_ts) l)
  IsLog-prune cutoff n t now [] h a p = record {
    start = n;
    numbered = tt;
    ends = refl;
    ascending = tt;
    past = tt;
  }
  IsLog-prune cutoff n t now (e ∷ l) h a p = elim (Bool-cases (leb cutoff e.emitted_ts)) [
    | inl young ↦
        rw (young, filter_all cutoff e.emitted_ts l (ground arith) a.1)
          (record {
            start = n;
            numbered = h;
            ends = refl;
            ascending = (omega arith, a.1);
            past = p;
          })
    | inr old ↦
        let later = IsLog-prune cutoff (suc n) e.emitted_ts now l h.1 a.1 p.1 in
        rw old (record {
          start = later.start;
          numbered = later.numbered;
          ends = omega (arith, later.ends);
          ascending = later.ascending;
          past = later.past;
        })
  ]

  filter-IsLog :
      (cutoff now next : ℕ) (l : List (StoredEvent E))
      → IsLog now next l
      → IsLog now next (filter (λ e. leb cutoff e.emitted_ts) l)
  filter-IsLog cutoff now next l v =
      rw v.ends at (IsLog-prune cutoff v.start 0 now l v.numbered v.ascending v.past)

  IsLog-later :
      (t now next : ℕ) (l : List (StoredEvent E)) → t ≤ now → IsLog t next l → IsLog now next l
  IsLog-later t now next l h v = record {
    start = v.start;
    numbered = v.numbered;
    ends = v.ends;
    ascending = v.ascending;
    past = Past-later t now l h v.past;
  }

  store_event_self :
      (t now : ℕ) (m : Message E) (b : EventBus E)
      → t ≤ now
      → IsTopicLog t m.topic b
      → IsTopicLog now m.topic (store_event now m b)
  unfolding store_event
  store_event_self t now m b h v =
      simp (lookup-insert, eq_refl)
        (IsLog-append t now (lookup_or 0 m.topic b.next_offset) (topic_log m.topic b) _ h refl refl
          v)

  store_event-ne :
      (t now : ℕ) (m : Message E) (topic : String) (b : EventBus E)
      → (m.topic == topic) ≡ false
      → t ≤ now
      → IsTopicLog t topic b
      → IsTopicLog now topic (store_event now m b)
  unfolding store_event
  store_event-ne t now m topic b ne h v = simp (lookup-insert, ne) (IsLog-later t now _ _ h v)

  pub store_event-IsTopicLog :
      (t now : ℕ) (m : Message E) (topic : String) (b : EventBus E)
      → t ≤ now
      → IsTopicLog t topic b
      → IsTopicLog now topic (store_event now m b)
  store_event-IsTopicLog t now m topic b h v = elim (Bool-cases (m.topic == topic)) [
    | inl same ↦
        let p : m.topic ≡ topic = (eq_iff m.topic topic).0 same in
        subst (λ k. IsTopicLog now k (store_event now m b)) p
          (store_event_self t now m b h (subst (λ k. IsTopicLog t k b) (sym p) v))
    | inr other ↦ store_event-ne t now m topic b other h v
  ]

  store_all-IsTopicLog :
      (now : ℕ) (ms : List (Message E)) (topic : String) (b : EventBus E)
      → IsTopicLog now topic b
      → IsTopicLog now topic (store_all now ms b)
  unfolding store_all
  store_all-IsTopicLog now [] topic b v = v
  store_all-IsTopicLog now (m ∷ ms) topic b v =
      store_all-IsTopicLog now ms topic (store_event now m b)
        (store_event-IsTopicLog now now m topic b (omega arith) v)

  -- A publish at a later instant, on the bus paused or not and whatever publishers wait, keeps the
  -- log of every topic consecutively numbered up to its next offset and ordered by time.
  pub publish-IsTopicLog :
      (t now : ℕ) (m : Message E) (topic : String) (b : EventBus E)
      → t ≤ now
      → IsTopicLog t topic b
      → IsTopicLog now topic (publish now m b)
  unfolding publish
  publish-IsTopicLog t now m topic b h v =
      if_rule (IsTopicLog now topic) b.bus_available
        (λ _.
          store_all-IsTopicLog now b.pending topic (record (store_event now m b) { pending = [] })
            (store_event-IsTopicLog t now m topic b h v))
        (λ _. IsLog-later t now _ _ h v)

  -- Retention keeps the log of every topic consecutively numbered up to its next offset: what it
  -- drops is a beginning of the log.
  pub prune_expired-IsTopicLog :
      (cfg : Settings) (now : ℕ) (topic : String) (b : EventBus E)
      → IsTopicLog now topic b
      → IsTopicLog now topic (prune_expired cfg now b)
  unfolding prune_expired
  prune_expired-IsTopicLog cfg now topic b v =
      rw lookup_or-map_values
        (filter-IsLog (now - days cfg.event_retention_days) now _ (topic_log topic b) v)
