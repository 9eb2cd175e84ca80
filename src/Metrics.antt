-- ===== src/Metrics.antt =====
-- extract_service/metrics.py: counters, gauges and histograms under a name and sorted labels. The
-- amounts that the service records are whole numbers.
pub mod Summary
pub mod Quantiles
pub mod Snapshot
use data_nexus.Prelude.{
  ℕ, ◌+◌, String, Bool, true, false, ◌&&◌, List, [], ◌∷◌, ◌++◌, ◌==◌, string_eq, if◌then◌else◌,
}
use data_nexus.Prelude.Text.{str_le}

abbrev pub Labels : Type 0
Labels = List (String × String)

pub record MetricKey : Type 0 where
  pub name : String
  pub labels : Labels

labels_beq : Labels → Labels → Bool
labels_beq [] [] = true
labels_beq ((k, v) ∷ l) ((j, w) ∷ m) = k == j && v == w && labels_beq l m
labels_beq _ _ = false

unfoldable pub key_beq : MetricKey → MetricKey → Bool
unfolding labels_beq
key_beq a b = a.name == b.name && labels_beq a.labels b.labels

insert_label : String × String → Labels → Labels
insert_label e [] = e ∷ []
insert_label e (f ∷ l) = if str_le e.0 f.0 then e ∷ f ∷ l else f ∷ insert_label e l

-- `Metrics._labels_key`
unfoldable pub labels_key : Labels → Labels
unfolding insert_label
labels_key [] = []
labels_key (e ∷ l) = insert_label e (labels_key l)

-- A change of the value under a key of a `defaultdict`.
unfoldable pub update {ℓ} :
    {V : Type ℓ} → MetricKey → V → (V → V) → List (MetricKey × V) → List (MetricKey × V)
update k default f [] = (k, f default) ∷ []
update k default f ((j, v) ∷ l) =
    if key_beq j k then (j, f v) ∷ l else (j, v) ∷ update k default f l

unfoldable pub read {ℓ} : {V : Type ℓ} → MetricKey → V → List (MetricKey × V) → V
read k default [] = default
read k default ((j, v) ∷ l) = if key_beq j k then v else read k default l

pub record Metrics : Type 0 where
  pub counters : List (MetricKey × ℕ)
  pub gauges : List (MetricKey × ℕ)
  pub histograms : List (MetricKey × List ℕ)

unfoldable pub inc : String → ℕ → Labels → Metrics → Metrics
inc name amount labels m = record m {
  counters =
      update (record { name = name; labels = labels_key labels }) 0 (λ v. v + amount) m.counters;
}

unfoldable pub set_gauge : String → ℕ → Labels → Metrics → Metrics
set_gauge name value labels m = record m {
  gauges = update (record { name = name; labels = labels_key labels }) 0 (λ v. value) m.gauges;
}

unfoldable pub observe : String → ℕ → Labels → Metrics → Metrics
observe name value labels m = record m {
  histograms =
      update (record { name = name; labels = labels_key labels }) [] (λ l. l ++ value ∷ [])
        m.histograms;
}
