-- ===== src/Api/Idempotency.antt =====
-- Creation under an idempotency key: what a new key does, and what a repeated one does.
use text.Mathlib.TextPositions.{eq_refl}
use data_nexus.Prelude.{
  ℕ, ◌+◌, ◌-◌, ◌≤◌, String, true, false, ◌&&◌, ◌≡◌, refl, ◌∙◌, none, some, List, [], ◌∷◌, ◌++◌,
  length, find, any, leb, ◌==◌, string_eq, eq_iff, arith,
}
use data_nexus.Config.{Settings, days}
use data_nexus.Errors.{ExtractError}
use data_nexus.Exec.{ok, err}
use data_nexus.Models.Enums.{ExtractStatus}
use data_nexus.Models.Request.{CreateExtractRequest}
use data_nexus.Platform.{Platform}
use data_nexus.Storage.Rows.{ExtractRow, IdempotencyRow}
use data_nexus.Storage.Extracts.{
  create_extract, get_extract, has_key, lookup_idempotency, new_row, record_idempotency,
}
use data_nexus.Auth.Principals.{check_entitlements}
use data_nexus.Auth.Limiter.{check_concurrent}
use data_nexus.Service.{Service, now}
use data_nexus.Storage.Apps.{audit}
use data_nexus.Worker.Queue.{enqueue, priority_weight, put}
use data_nexus.Metrics.{set_gauge}
use data_nexus.Api.Create.{
  estimate_duration, accept, by_key, make_extract_id, new_extract, request_fingerprint,
}

module _ (p : Platform) (cfg : Settings) (suffix app : String) (r : CreateExtractRequest)
    (s : Service) where
  -- The identifier and the rows of a request that is accepted.
  abbrev pub fresh_id : String
  fresh_id = make_extract_id p (now s) suffix

  abbrev pub fresh_row : List String → ExtractRow
  fresh_row scope = new_row (now s) (new_extract app r fresh_id scope)

  abbrev pub fresh_key : IdempotencyRow
  fresh_key = record {
    key = r.idempotency_key;
    app_id = app;
    extract_id = fresh_id;
    request_fingerprint = request_fingerprint p r;
    created_at = now s;
  }

  -- What lets a request with a new key through: the entitlements, the cap on active extracts, and
  -- rows that break no primary key.
  pub record Admitted (scope : List String) : Type 0 where
    pub entitled : check_entitlements app r.fund_scope s.storage ≡ ok scope
    pub below_cap : check_concurrent cfg app s.storage ≡ (ok tt, s.storage)
    pub id_free : any (λ x. x.extract_id == fresh_id) s.storage.extracts ≡ false
    pub key_free : any (has_key app r.idempotency_key) s.storage.idempotency ≡ false

  -- An admitted request is answered with 202 and its new identifier; its row and its key are
  -- added to the tables, the row with status ACCEPTED, and its job to the queue.
  pub accept_new :
      (scope : List String)
      → Admitted scope
      → let (answer, s') = accept p cfg suffix app r s in
        (answer
          ≡ ok (record {
            http_status = 202;
            extract_id = fresh_id;
            status = ExtractStatus.accepted;
            created_at = now s;
            estimated_completion = some (now s + estimate_duration (length scope));
          }))
        × (s'.storage.extracts ≡ s.storage.extracts ++ fresh_row scope ∷ [])
        × (s'.storage.idempotency ≡ s.storage.idempotency ++ fresh_key ∷ [])
        × (s'.worker.queue
            ≡ put
                (record {
                  priority = priority_weight r.priority;
                  enqueued_at = now s;
                  extract_id = fresh_id;
                })
                s.worker.queue)
  unfolding accept create_extract record_idempotency audit enqueue new_extract make_extract_id
      request_fingerprint estimate_duration set_gauge
  accept_new scope v = rw (v.entitled, v.below_cap, v.id_free, v.key_free) (refl, refl, refl, refl)

  -- When a request passes the entitlements and the cap and its identifier is new, but the row of its
  -- key is still in the table and too old to be found, it ends with the integrity error of
  -- sqlite, which refuses a second row of the key. The row of the extract was committed before and
  -- stays, with status ACCEPTED; the keys and the queue are as they were.
  pub expired_key_orphans :
      (scope : List String)
      → check_entitlements app r.fund_scope s.storage ≡ ok scope
      → check_concurrent cfg app s.storage ≡ (ok tt, s.storage)
      → any (λ x. x.extract_id == fresh_id) s.storage.extracts ≡ false
      → lookup_idempotency cfg (now s) app r.idempotency_key s.storage ≡ none
      → any (has_key app r.idempotency_key) s.storage.idempotency ≡ true
      → let (answer, s') =
          by_key
            (lookup_idempotency cfg (now s) app r.idempotency_key s.storage)
            p
            cfg
            suffix
            app
            r
            s in
        (answer ≡ err (ExtractError.integrity "idempotency"))
        × (s'.storage.extracts ≡ s.storage.extracts ++ fresh_row scope ∷ [])
        × (s'.storage.idempotency ≡ s.storage.idempotency)
        × (s'.worker.queue ≡ s.worker.queue)
  unfolding by_key accept create_extract record_idempotency new_extract make_extract_id
      request_fingerprint
  expired_key_orphans scope entitled cap id_free missed taken =
      rw (missed, by_key, entitled, cap, id_free, taken) (refl, refl, refl, refl)

find-append_new :
    (cfg : Settings) (t : ℕ) (app key : String) (l : List IdempotencyRow) (x : IdempotencyRow)
    → any (has_key app key) l ≡ false
    → has_key app key x ≡ true
    → t - days cfg.idempotency_key_ttl_days ≤ x.created_at
    → find
        (λ r. has_key app key r && leb (t - days cfg.idempotency_key_ttl_days) r.created_at)
        (l ++ x ∷ [])
      ≡ some x
find-append_new cfg t app key [] x none_yet mine young = ground arith
find-append_new cfg t app key (y ∷ l) x none_yet mine young =
    ground (arith, find-append_new cfg t app key l x)

find-append_id :
    (id : String) (l : List ExtractRow) (x : ExtractRow)
    → any (λ r. r.extract_id == id) l ≡ false
    → x.extract_id ≡ id
    → find (λ r. r.extract_id == id) (l ++ x ∷ []) ≡ some x
find-append_id id [] x none_yet mine = ground (arith, eq_iff x.extract_id id)
find-append_id id (y ∷ l) x none_yet mine = ground (arith, find-append_id id l x)

module _ (p : Platform) (cfg : Settings) (suffix suffix' app : String) (r : CreateExtractRequest)
    (s later : Service) (scope : List String) (v : Admitted p cfg suffix app r s scope)
    (rows : later.storage.extracts ≡ (accept p cfg suffix app r s).1.storage.extracts)
    (keys : later.storage.idempotency ≡ (accept p cfg suffix app r s).1.storage.idempotency) where
  key_found :
      now later ≤ now s + days cfg.idempotency_key_ttl_days
      → lookup_idempotency cfg (now later) app r.idempotency_key later.storage
        ≡ some (fresh_key p cfg suffix app r s)
  unfolding lookup_idempotency
  key_found young =
      let (_, _, new_keys, _) = accept_new p cfg suffix app r s scope v in
      rw (keys ∙ new_keys) (
        find-append_new cfg (now later) app r.idempotency_key s.storage.idempotency
          (fresh_key p cfg suffix app r s) v.key_free
          (ground (arith, eq_iff app app, eq_iff r.idempotency_key r.idempotency_key))
          (omega arith))

  row_found :
      get_extract (fresh_id p cfg suffix app r s) later.storage
      ≡ some (fresh_row p cfg suffix app r s scope)
  unfolding get_extract new_row new_extract
  row_found =
      let (_, new_rows, _, _) = accept_new p cfg suffix app r s scope v in
      rw (rows ∙ new_rows) (
        find-append_id (fresh_id p cfg suffix app r s) s.storage.extracts
          (fresh_row p cfg suffix app r s scope) v.id_free refl)

  -- A request that was accepted, and comes again before its key expires, is answered with 200 and
  -- the identifier of the first extract; it changes nothing, so there is no second extract. The
  -- later service has the tables that the first answer left.
  pub accept_then_replay :
      now later ≤ now s + days cfg.idempotency_key_ttl_days
      → by_key
          (lookup_idempotency cfg (now later) app r.idempotency_key later.storage)
          p
          cfg
          suffix'
          app
          r
          later
        ≡ (
          ok (record {
            http_status = 200;
            extract_id = fresh_id p cfg suffix app r s;
            status = ExtractStatus.accepted;
            created_at = now s;
            estimated_completion = none;
          }),
          later,
        )
  unfolding by_key new_row new_extract
  accept_then_replay young = rw (key_found young, eq_refl (request_fingerprint p r), row_found)

  -- After a request was accepted, one under the same key whose fingerprint differs is refused, while
  -- the key has not expired, with a conflict that names the first extract, and changes nothing. In
  -- between, other tasks may do what leaves the two tables alone.
  pub accept_then_conflict :
      (r' : CreateExtractRequest)
      → r'.idempotency_key ≡ r.idempotency_key
      → (request_fingerprint p r == request_fingerprint p r') ≡ false
      → now later ≤ now s + days cfg.idempotency_key_ttl_days
      → by_key
          (lookup_idempotency cfg (now later) app r'.idempotency_key later.storage)
          p
          cfg
          suffix'
          app
          r'
          later
        ≡ (err (ExtractError.idempotency_conflict (fresh_id p cfg suffix app r s)), later)
  unfolding by_key request_fingerprint make_extract_id
  accept_then_conflict r' same differs young = rw (same, key_found young, differs)
