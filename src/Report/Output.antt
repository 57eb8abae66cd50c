-- ===== src/Report/Output.antt =====
-- writeMarkdownReport and main: the file's name, the data of the template, and the exit code.
-- Paths, the working directory, the files and text/template are parameters.
use red_team_coin.Base.{
  ℕ, Bool, not, ◌||◌, Option, none, some, List, [], ◌∷◌, ◌++◌, ltb, if◌then◌else◌, length, Text,
  text, text_eq, I64, add64,
}
use red_team_coin.Pool.{Float64}
use red_team_coin.Report.{
  FloatOps, LogFile, MinerImpactStats, SystemImpactReport, avg_cpu_power_watts, avg_gpu_power_watts,
  electricity_cost_per,
}
use red_team_coin.Report.Format.{
  sub64, estimate_hardware_replacement, estimate_incident_response, estimate_maintenance,
}
use red_team_coin.Report.Impact.{SortSlice, analyze_impact}

-- `format_date` is Format("2006-01-02").
unfoldable pub generate_report_filename : (ℕ → Text) → ℕ → ℕ → Text
generate_report_filename format_date start_date end_date =
    text "Report_Miner_Activity_from_"
    ++ (format_date start_date ++ (text "_to_" ++ (format_date end_date ++ text ".md")))

pub record ImpactCounts : Type 0 where
  pub critical : I64
  pub high : I64
  pub moderate : I64
  pub low : I64

-- The fields of the template's data that are no functions and no fields of the report.
pub record TemplateData : Type 0 where
  pub counts : ImpactCounts
  pub cpu_power_watts : Float64
  pub gpu_power_watts : Float64
  pub electricity_cost : Float64
  pub hardware_replacement : Text
  pub incident_response : Text
  pub maintenance : Text
  pub high_cpu_percent : Float64
  pub cpu_only_systems : I64
  pub gpu_accelerated_systems : I64
  pub daily_avg_kwh : Float64
  pub daily_avg_cost : Float64
  pub top10_count : I64

module _ (fl : FloatOps) where
  -- The switch of categorizeImpact; its bounds are 90, 70 and 50.
  unfoldable pub count_impact : Float64 → ImpactCounts → ImpactCounts
  count_impact usage c =
      if fl.ge usage 0x4056_8000_0000_0000
      then record c { critical = add64 c.critical 1 }
      else if fl.ge usage 0x4051_8000_0000_0000
      then record c { high = add64 c.high 1 }
      else if fl.ge usage 0x4049_0000_0000_0000
      then record c { moderate = add64 c.moderate 1 }
      else record c { low = add64 c.low 1 }

  unfoldable pub categorize_from : List MinerImpactStats → ImpactCounts → ImpactCounts
  categorize_from [] c = c
  categorize_from (stats ∷ miners) c = categorize_from miners (count_impact stats.avg_cpu_usage c)

  unfoldable pub categorize_impact : List MinerImpactStats → ImpactCounts
  categorize_impact miners =
      categorize_from miners (record { critical = 0; high = 0; moderate = 0; low = 0 })

  -- 24.0 and 100.0 are the literals of the three quotients.
  unfoldable pub template_data : SystemImpactReport → TemplateData
  template_data report =
      let days = fl.div report.total_mining_hours 0x4038_0000_0000_0000 in
      let high_share =
        fl.div (fl.of_int report.miners_with_high_cpu) (fl.of_int report.total_miners) in
      record {
        counts = categorize_impact report.miner_stats;
        cpu_power_watts = avg_cpu_power_watts;
        gpu_power_watts = avg_gpu_power_watts;
        electricity_cost = electricity_cost_per;
        hardware_replacement = estimate_hardware_replacement fl report.total_miners;
        incident_response = estimate_incident_response fl report.total_miners;
        maintenance = estimate_maintenance fl report.total_miners;
        high_cpu_percent = fl.mul high_share 0x4059_0000_0000_0000;
        cpu_only_systems = sub64 report.total_miners report.miners_with_gpu;
        gpu_accelerated_systems = sub64 report.miners_with_gpu report.miners_with_hybrid;
        daily_avg_kwh = fl.div report.total_estimated_kwh days;
        daily_avg_cost = fl.div report.total_estimated_cost days;
        top10_count = if ltb (length report.miner_stats) 10 then length report.miner_stats else 10;
      }

pub data ReportError : Type 0 where
  invalid_filename no_directory no_root cannot_create cannot_parse cannot_execute : ReportError

-- What the tool calls: filepath.Clean and filepath.Base, whether os.Getwd, os.OpenRoot and
-- root.Create return no error, and the template, whose text is `none` where it fails.
pub record Surroundings : Type 0 where
  pub clean : Text → Text
  pub base : Text → Text
  pub has_directory : Bool
  pub opens_root : Bool
  pub creates : Text → Bool
  pub parses : Bool
  pub render : SystemImpactReport → TemplateData → Option Text

-- The file that was created with its text (`none` where Execute stopped), and the error.
pub record Output : Type 0 where
  pub file : Option (Text × Option Text)
  pub error : Option ReportError

abbrev failed : ReportError → Output
failed e = record { file = none; error = some e }

module _ (fl : FloatOps) (env : Surroundings) where
  unfoldable pub fill_template : Text → SystemImpactReport → Output
  fill_template name report =
      let rendered = env.render report (template_data fl report) in
      if not env.parses
      then record { file = some (name, some []); error = some cannot_parse }
      else record {
        file = some (name, rendered);
        error = elim rendered [ none ↦ some cannot_execute | some content ↦ none ];
      }

  unfoldable pub write_markdown_report : Text → SystemImpactReport → Output
  write_markdown_report filename report =
      let clean_name = env.clean filename in
      if text_eq clean_name (text ".")
        || (text_eq clean_name (text "..") || not (text_eq clean_name (env.base clean_name)))
      then failed invalid_filename
      else if not env.has_directory
      then failed no_directory
      else if not env.opens_root
      then failed no_root
      else if not (env.creates clean_name)
      then failed cannot_create
      else fill_template clean_name report

-- What is found under the log's path: nothing, a directory, or a file, whose bytes may be
-- unreadable or no JSON of the struct.
pub data LogSource : Type 0 where
  not_there is_dir unreadable not_json : LogSource
  holds : LogFile → LogSource

pub record Exit : Type 0 where
  pub code : ℕ
  pub file : Option (Text × Option Text)

abbrev exit_1 : Exit
exit_1 = record { code = 1; file = none }

module _ (fl : FloatOps) (env : Surroundings) (sort_slice : SortSlice)
    (format_date : ℕ → Text) where
  unfoldable pub report_on : ℕ → LogSource → Exit
  report_on now (holds log_data) =
      let report = analyze_impact fl sort_slice now log_data in
      let name = generate_report_filename format_date report.start_date report.end_date in
      let output = write_markdown_report fl env name report in
      record { code = elim output.error [ none ↦ 0 | some e ↦ 1 ]; file = output.file }
  report_on now not_there = exit_1
  report_on now is_dir = exit_1
  report_on now unreadable = exit_1
  report_on now not_json = exit_1

  -- main, where `source` says what is found under the cleaned path.
  unfoldable pub generate_report : ℕ → Text → (Text → LogSource) → Exit
  generate_report now log_file source =
      if text_eq log_file [] then exit_1 else report_on now (source (env.clean log_file))
