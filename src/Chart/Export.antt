-- ===== src/Chart/Export.antt =====
-- The rows of the export of latencies (latencyExportRows and LATENCY_EXPORT_COLUMNS of
-- frontend/src/components/charts/latency-timeseries-chart.tsx). `iso` is `toISOString` of a date.
use perps_latency_benchmark.Prelude.{
  ◌>>=◌, ℕ, not, ◌&&◌, Option, none, some, List, [], ◌∷◌, Text, txt, if◌then◌else◌,
}
use perps_latency_benchmark.Csv.Download.{CsvColumn, CsvValue, missing, string, number}
use perps_latency_benchmark.Data.{Sample}
use perps_latency_benchmark.Numbers.{Numbers, negative}
use perps_latency_benchmark.SampleTime.{sample_plot_date}

pub record LatencyExportRow (N : Type 0) : Type 0 where
  pub batch_submission : Option Text
  pub batch_size : N
  pub completed_at : Option Text
  pub measurement_mode : Option Text
  pub network_floor_ms : Option N
  pub order_type : Option Text
  pub plot_at : ℕ
  pub raw_network_ms : Option N
  pub scenario : Text
  pub scheduled_at : Option Text
  pub sent_at : Option Text
  pub speed_bump_ms : Option N
  pub transport : Text
  pub value_label : Text
  pub value_ms : N
  pub venue : Text

module _ {N : Type 0} ⦃n : Numbers N⦄ where
  abbrev text_or_missing : Option Text → CsvValue N
  text_or_missing none = missing
  text_or_missing (some t) = string t

  abbrev number_or_missing : Option N → CsvValue N
  number_or_missing none = missing
  number_or_missing (some x) = number x

  unfoldable pub latency_export_columns : (ℕ → Text) → List (CsvColumn N (LatencyExportRow N))
  latency_export_columns iso =
      record {
        header = txt "plot_at";
        value = λ (row : LatencyExportRow N). CsvValue.date (iso row.plot_at);
      }
      ∷ record {
        header = txt "completed_at";
        value = λ (row : LatencyExportRow N). text_or_missing row.completed_at;
      }
      ∷ record {
        header = txt "scheduled_at";
        value = λ (row : LatencyExportRow N). text_or_missing row.scheduled_at;
      }
      ∷ record {
        header = txt "sent_at";
        value = λ (row : LatencyExportRow N). text_or_missing row.sent_at;
      }
      ∷ record { header = txt "venue"; value = λ (row : LatencyExportRow N). string row.venue }
      ∷ record {
        header = txt "scenario";
        value = λ (row : LatencyExportRow N). string row.scenario;
      }
      ∷ record {
        header = txt "transport";
        value = λ (row : LatencyExportRow N). string row.transport;
      }
      ∷ record {
        header = txt "order_type";
        value = λ (row : LatencyExportRow N). text_or_missing row.order_type;
      }
      ∷ record {
        header = txt "batch_size";
        value = λ (row : LatencyExportRow N). number row.batch_size;
      }
      ∷ record {
        header = txt "batch_submission";
        value = λ (row : LatencyExportRow N). text_or_missing row.batch_submission;
      }
      ∷ record {
        header = txt "measurement_mode";
        value = λ (row : LatencyExportRow N). text_or_missing row.measurement_mode;
      }
      ∷ record {
        header = txt "metric";
        value = λ (row : LatencyExportRow N). string row.value_label;
      }
      ∷ record {
        header = txt "latency_ms";
        value = λ (row : LatencyExportRow N). number row.value_ms;
      }
      ∷ record {
        header = txt "raw_network_ms";
        value = λ (row : LatencyExportRow N). number_or_missing row.raw_network_ms;
      }
      ∷ record {
        header = txt "network_floor_ms";
        value = λ (row : LatencyExportRow N). number_or_missing row.network_floor_ms;
      }
      ∷ record {
        header = txt "speed_bump_ms";
        value = λ (row : LatencyExportRow N). number_or_missing row.speed_bump_ms;
      }
      ∷ []

  unfoldable pub ns_to_export_ms : Option N → Option N
  ns_to_export_ms none = none
  ns_to_export_ms (some value) =
      if n.is_finite value && not (negative value)
      then some (n.div value (n.of_ℕ 1_000_000))
      else none

  module _ (parse_date : Text → Option ℕ) (value_for_sample : Sample N → Option N)
      (value_label : Text) where
    abbrev row_of : Sample N → ℕ → N → LatencyExportRow N
    row_of sample plot_at value_ms = record {
      batch_submission = sample.batch_submission;
      batch_size = sample.batch_size;
      completed_at = sample.completed_at;
      measurement_mode = sample.measurement_mode;
      network_floor_ms = ns_to_export_ms sample.network_floor_ns;
      order_type = sample.order_type;
      plot_at = plot_at;
      raw_network_ms = ns_to_export_ms sample.raw_network_ns;
      scenario = sample.scenario;
      scheduled_at = sample.scheduled_at;
      sent_at = sample.sent_at;
      speed_bump_ms = ns_to_export_ms sample.speed_bump_ns;
      transport = sample.transport;
      value_label = value_label;
      value_ms = value_ms;
      venue = sample.venue;
    }

    abbrev pub export_row : Sample N → Option (LatencyExportRow N)
    export_row sample = do
      plot_at ← sample_plot_date parse_date sample
      value_ms ← value_for_sample sample
      if n.is_finite value_ms then some (row_of sample plot_at value_ms) else none

    abbrev pub rows_from : List (Sample N) → List (LatencyExportRow N)
    rows_from [] = []
    rows_from (sample ∷ samples) =
        let rest = rows_from samples in
        elim (export_row sample) [ none ↦ rest | some row ↦ row ∷ rest ]

    unfoldable pub latency_export_rows : List (Sample N) → List (LatencyExportRow N)
    unfolding ns_to_export_ms sample_plot_date
    latency_export_rows samples = rows_from samples
