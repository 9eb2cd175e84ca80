-- ===== src/Consumer/Handler.antt =====
-- consumer_example/consumer.py: `ExampleConsumer.handle`. The HTTP client is a parameter: what it
-- answers to a GET, where `none` is an exception or a status that `raise_for_status` refuses.
use data_nexus.Prelude.{
  ℕ, String, Bool, true, false, Option, none, some, List, [], ◌∷◌, ◌++◌, length, contains, ◌==◌,
  string_eq, if◌then◌else◌,
}
use data_nexus.Prelude.Text.{concat}
use data_nexus.Models.Events.{Event, EventBody}
use data_nexus.Platform.{Bytes, Platform}

-- The fields of an entry of the files response that the consumer reads.
pub record Listed : Type 0 where
  pub partition_key : String
  pub checksum : String
  pub download_url : String

pub record Client : Type 0 where
  pub get_files : String → Option (List Listed)
  pub get_content : String → Option Bytes

pub record Downloaded : Type 0 where
  pub partition_key : String
  pub size_bytes : ℕ

pub record Consumer : Type 0 where
  pub seen_event_ids : List String
  pub processed_extracts : List (String × List Downloaded)

-- `seen_event_ids.add`
unfoldable pub mark_seen : String → Consumer → Consumer
mark_seen id c =
    if contains id c.seen_event_ids then c else record c { seen_event_ids = id ∷ c.seen_event_ids }

module _ (p : Platform) (client : Client) where
  -- The body of the loop, on the answer to the GET of a file.
  unfoldable pub check_content : Listed → Option Bytes → Option Downloaded
  check_content f none = none
  check_content f (some content) =
      if concat ("sha256:" ∷ p.sha256_hex content ∷ []) == f.checksum
      then some (record { partition_key = f.partition_key; size_bytes = length content })
      else none

  abbrev prepend : Option Downloaded → Option (List Downloaded) → Option (List Downloaded)
  prepend none l = none
  prepend (some d) none = none
  prepend (some d) (some l) = some (d ∷ l)

  -- The loop over the files: it raises at the first that fails.
  unfoldable pub download_all : List Listed → Option (List Downloaded)
  unfolding check_content
  download_all [] = some []
  download_all (f ∷ files) =
      prepend (check_content f (client.get_content f.download_url)) (download_all files)

  abbrev and_then : Option (List Listed) → Option (List Downloaded)
  and_then none = none
  and_then (some files) = download_all files

  unfoldable pub finish : Option (List Downloaded) → Event → Consumer → Bool × Consumer
  finish none e c = (false, c)
  finish (some downloaded) e c = (
    true,
    record (mark_seen e.event_id c) {
      processed_extracts = c.processed_extracts ++ (e.extract_id, downloaded) ∷ [];
    },
  )

  unfoldable pub handle_body : EventBody → Event → Consumer → Bool × Consumer
  unfolding finish mark_seen
  handle_body (EventBody.ready artifact lineage) e c =
      finish (and_then (client.get_files artifact.files_endpoint)) e c
  handle_body (EventBody.failed error) e c = (true, mark_seen e.event_id c)
  handle_body (EventBody.expiring at endpoint) e c = (true, mark_seen e.event_id c)

  -- `handle`: whether it returned, and the consumer after it.
  unfoldable pub handle : Event → Consumer → Bool × Consumer
  unfolding handle_body
  handle e c =
      let fresh = handle_body e.body e c in
      if contains e.event_id c.seen_event_ids then (true, c) else fresh
