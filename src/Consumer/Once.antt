-- ===== src/Consumer/Once.antt =====
-- What the example consumer makes of events that come more than once, and of files that are not
-- what the service listed.
use mathlib.Core.Path.{subst}
use data_nexus.Prelude.{
  ℕ, zero, suc, ◌<◌, String, true, false, ◌≡◌, refl, sym, ap, ◌∙◌, Option, none, some, List, [],
  ◌∷◌, ◌++◌, contains, ◌==◌, string_eq, eq_iff, arith, Bool-cases, Option-cases, inl, inr, map,
}
use data_nexus.Prelude.Lists.{All}
use data_nexus.Prelude.Text.{concat}
use data_nexus.Models.Events.{Event, EventArtifact, EventBody, EventLineage}
use data_nexus.Platform.{Bytes, Platform}
use data_nexus.EventBus.Log.{EventBus, StoredEvent, get_dlq}
use data_nexus.EventBus.Delivery.{deliver}
use data_nexus.EventBus.Retries.{answer, deliver_dead_letter, state_after}
use data_nexus.Consumer.Handler.{
  Client, Consumer, Downloaded, Listed, check_content, download_all, finish, handle, handle_body,
  mark_seen,
}

contains-mark_seen :
    (id : String) (c : Consumer) → contains id (mark_seen id c).seen_event_ids ≡ true
unfolding mark_seen
contains-mark_seen id c = elim (Bool-cases (contains id c.seen_event_ids)) [
  | inl e ↦ rw (e, e) refl
  | inr e ↦ rw e (ground (arith, eq_iff id id))
]

module _ (p : Platform) (client : Client) where
  finish-seen :
      (o : Option (List Downloaded)) (e : Event) (c : Consumer)
      → (finish p client o e c).0 ≡ true
      → contains e.event_id (finish p client o e c).1.seen_event_ids ≡ true
  unfolding finish
  finish-seen none e c h = cc
  finish-seen (some l) e c h = contains-mark_seen e.event_id c

  handle_body-seen :
      (b : EventBody) (e : Event) (c : Consumer)
      → (handle_body p client b e c).0 ≡ true
      → contains e.event_id (handle_body p client b e c).1.seen_event_ids ≡ true
  unfolding handle_body
  handle_body-seen (EventBody.ready artifact lineage) e c h = finish-seen _ e c h
  handle_body-seen (EventBody.failed error) e c h = contains-mark_seen e.event_id c
  handle_body-seen (EventBody.expiring at endpoint) e c h = contains-mark_seen e.event_id c

  handle-seen :
      (e : Event) (c : Consumer)
      → (handle p client e c).0 ≡ true
      → contains e.event_id (handle p client e c).1.seen_event_ids ≡ true
  unfolding handle
  handle-seen e c h = elim (Bool-cases (contains e.event_id c.seen_event_ids)) [
    | inl seen ↦ rw seen seen
    | inr new ↦ rw new (handle_body-seen e.body e c (rw new at h))
  ]

  -- An event that was handled without an exception, and comes again with the same event_id, changes
  -- nothing: it is not processed a second time, whatever else it holds and whatever the service
  -- would answer.
  pub handle_again :
      (client' : Client) (e again : Event) (c : Consumer)
      → again.event_id ≡ e.event_id
      → (handle p client e c).0 ≡ true
      → handle p client' again (handle p client e c).1 ≡ (true, (handle p client e c).1)
  unfolding handle
  handle_again client' e again c same h = let seen = handle-seen e c h in rw (same, seen) refl

  -- A file that was fetched, and whose content has the listed checksum.
  pub record Verified (f : Listed) : Type 0 where
    pub content : Bytes
    pub fetched : client.get_content f.download_url ≡ some content
    pub checksum : concat ("sha256:" ∷ p.sha256_hex content ∷ []) ≡ f.checksum

  check_content-Verified :
      (f : Listed) (o : Option Bytes) {d : Downloaded}
      → client.get_content f.download_url ≡ o
      → check_content p client f o ≡ some d
      → Verified f × (d.partition_key ≡ f.partition_key)
  unfolding check_content
  check_content-Verified f none h e = cc
  check_content-Verified f (some content) {d} h e =
      let sum = concat ("sha256:" ∷ p.sha256_hex content ∷ []) in
      elim (Bool-cases (sum == f.checksum)) [
        | inl good ↦
            let found = rw good at e in
            (
              record { content = content; fetched = h; checksum = (eq_iff sum f.checksum).0 good },
              sym (ap (λ (x : Option Downloaded). key_of f x) found),
            )
        | inr bad ↦ let lost = rw bad at e in cc
      ]
    where
      key_of : Listed → Option Downloaded → String
      key_of f none = f.partition_key
      key_of f (some g) = g.partition_key

  download_all-Verified :
      (files : List Listed) {l : List Downloaded}
      → download_all p client files ≡ some l
      → All Verified files × (map (λ d. d.partition_key) l ≡ map (λ f. f.partition_key) files)
  unfolding download_all
  download_all-Verified [] {l} e = let same : [] ≡ l = cc in (tt, rw (← same) refl)
  download_all-Verified (f ∷ files) {l} e =
      elim (Option-cases (check_content p client f (client.get_content f.download_url))) [
        | inl bad ↦ let lost = rw bad at e in cc
        | inr (d, good) ↦ elim (Option-cases (download_all p client files)) [
          | inl bad ↦ let lost = rw (good, bad) at e in cc
          | inr (ds, rest) ↦
              let same : d ∷ ds ≡ l = let found = rw (good, rest) at e in cc in
              let (v, k) =
                check_content-Verified f (client.get_content f.download_url) {d = d} refl good in
              let (vs, ks) = download_all-Verified files {l = ds} rest in
              ((v, vs), rw (← same) (rw (k, ks) refl))
        ]
      ]

  -- What a consumer has processed of the files that an endpoint lists: all of them, in their order,
  -- each with the listed checksum.
  pub record Processed (endpoint id : String) (before after : List (String × List Downloaded))
      : Type 0 where
    pub files : List Listed
    pub downloaded : List Downloaded
    pub listed : client.get_files endpoint ≡ some files
    pub verified : All Verified files
    pub keys : map (λ d. d.partition_key) downloaded ≡ map (λ f. f.partition_key) files
    pub added : after ≡ before ++ (id, downloaded) ∷ []

  handle_ready :
      (artifact : EventArtifact) (lineage : EventLineage) (e : Event) (c : Consumer)
      → (handle_body p client (EventBody.ready artifact lineage) e c).0 ≡ true
      → Processed artifact.files_endpoint e.extract_id c.processed_extracts
          (handle_body p client (EventBody.ready artifact lineage) e c).1.processed_extracts
  unfolding handle_body finish
  handle_ready artifact lineage e c h =
      elim (Option-cases (client.get_files artifact.files_endpoint)) [
        | inl bad ↦ let lost = rw bad at h in cc
        | inr (files, got) ↦ elim (Option-cases (download_all p client files)) [
          | inl bad ↦ let lost = rw (got, bad) at h in cc
          | inr (ds, all) ↦
              let (v, k) = download_all-Verified files {l = ds} all in
              rw (got, all)
                (record {
                  files = files;
                  downloaded = ds;
                  listed = got;
                  verified = v;
                  keys = k;
                  added = refl;
                })
        ]
      ]

  -- When the handler returns for an extract.ready event that it has not seen, it has fetched every
  -- file that the endpoint of the event lists, each had the listed checksum, and the extract is
  -- added to the processed ones with these files, in their order.
  pub handle_verified :
      (e : Event) (c : Consumer) {artifact : EventArtifact} {lineage : EventLineage}
      → e.body ≡ EventBody.ready artifact lineage
      → contains e.event_id c.seen_event_ids ≡ false
      → (handle p client e c).0 ≡ true
      → Processed artifact.files_endpoint e.extract_id c.processed_extracts
          (handle p client e c).1.processed_extracts
  unfolding handle
  handle_verified e c {artifact} {lineage} ready new h = rw new (
      subst
        (λ b.
          (handle_body p client b e c).0 ≡ true
          → Processed artifact.files_endpoint e.extract_id c.processed_extracts
              (handle_body p client b e c).1.processed_extracts)
        (sym ready) (handle_ready artifact lineage e c) (rw new at h))

  download_all-bad :
      (before : List Listed) (f : Listed) (rest : List Listed)
      → check_content p client f (client.get_content f.download_url) ≡ none
      → download_all p client (before ++ f ∷ rest) ≡ none
  unfolding download_all
  download_all-bad [] f rest bad = rw bad refl
  download_all-bad (g ∷ before) f rest bad =
      elim (Option-cases (check_content p client g (client.get_content g.download_url))) [
        | inl e ↦ rw e refl
        | inr (d, e) ↦ rw (e, download_all-bad before f rest bad) refl
      ]

  -- An extract.ready event whose endpoint lists a file with content of another checksum is refused,
  -- and the consumer stays as it is.
  handle_bad :
      (e : Event) (c : Consumer) {artifact : EventArtifact} {lineage : EventLineage}
      (before : List Listed) (f : Listed) (rest : List Listed)
      → e.body ≡ EventBody.ready artifact lineage
      → contains e.event_id c.seen_event_ids ≡ false
      → client.get_files artifact.files_endpoint ≡ some (before ++ f ∷ rest)
      → check_content p client f (client.get_content f.download_url) ≡ none
      → handle p client e c ≡ (false, c)
  unfolding handle handle_body finish
  handle_bad e c before f rest ready new listed bad =
      rw (new, ready, listed, download_all-bad before f rest bad) refl

  state_after-bad :
      (n : ℕ) (e : Event) (c : Consumer)
      → handle p client e c ≡ (false, c)
      → state_after (handle p client) e n c ≡ c
  unfolding state_after
  state_after-bad zero e c h = refl
  state_after-bad (suc n) e c h = rw h (state_after-bad n e c h)

  -- An extract.ready event that the consumer has not seen, and whose endpoint lists a file that
  -- cannot be fetched or has another checksum, goes to the dead letters of its topic, and the
  -- consumer stays as it is: nothing of the extract is processed, and the event counts as not seen.
  pub deliver_corrupt :
      (topic : String) (e : StoredEvent Event) (b : EventBus Event) (c : Consumer)
      {artifact : EventArtifact} {lineage : EventLineage} (before : List Listed) (f : Listed)
      (rest : List Listed)
      → e.event.body ≡ EventBody.ready artifact lineage
      → contains e.event.event_id c.seen_event_ids ≡ false
      → client.get_files artifact.files_endpoint ≡ some (before ++ f ∷ rest)
      → check_content p client f (client.get_content f.download_url) ≡ none
      → let (b', c') = deliver topic (handle p client) e b c in
        (get_dlq topic b' ≡ get_dlq topic b ++ e.event ∷ []) × (c' ≡ c)
  deliver_corrupt topic e b c before f rest ready new listed bad =
      let refused = handle_bad e.event c before f rest ready new listed bad in
      let fails : (n : ℕ) → n < 5 → answer (handle p client) e.event n c ≡ false = λ n low.
        ap (λ d. (handle p client e.event d).0) (state_after-bad n e.event c refused)
        ∙ ap (λ x. x.0) refused in
      let (letters, topics, offsets, state) =
        deliver_dead_letter topic (handle p client) e b c fails in
      (letters, state ∙ state_after-bad 5 e.event c refused)
