-- ===== src/Examples/Fallback.antt =====
-- internal/daemon/up.go: a survey of three offers, two of them of one machine, and the attempts on them.
use larri.Prelude.{ℕ, ◌==◌, ◌≡◌, refl, true, false, none, [], ◌∷◌, map, filter, All, if◌then◌else◌}
use larri.Prelude.Text.{Text, text_eq, bytes}
use larri.Prelude.Float.{millionths}
use larri.Core.State.{forbid}
use larri.Core.Criteria.{Criteria, Offer}
use larri.Sizing.Facts.{Facts, validate}
use larri.Sizing.Plan.{
  SizingPlan, plan, plan_weighed, settle, total_bytes, capped_context, shard_vram,
}
use larri.Sizing.Shards.{shards}
use larri.Rank.{Policy, eligible, select}
use larri.Daemon.World.{host_failure}
use larri.Daemon.Disk.{cold_start_bytes}
use larri.Daemon.Market.{Exclusions, contains, machine_key, offer_key, retired_models}
use larri.Daemon.Survey.{
  answered, Outside, UpRequest, Survey, Surveyed, surveyed, not_surveyed, survey, base_request,
  parse_cuda,
}
use larri.Daemon.Survey.Chosen.{Checked, survey-Checked}
use larri.Daemon.Survey.Fitting.{IsNeeded, survey-fits}
use larri.Sizing.Plan.Room.{HasRoom}
use larri.Runtime.{satisfies_vendor, satisfies, satisfies_cuda}
use larri.Daemon.Fallback.{After, serving, broke, AttemptWorld, up_and_serve}
use larri.Daemon.Fallback.Elsewhere.{Elsewhere, up_and_serve-Elsewhere, up_and_serve-listings}
use larri.Daemon.Fallback.Attempts.{Paced, up_and_serve-Paced}
use larri.Examples.{offer_at}

abbrev on_machine : Text → Text → ℕ → Offer ℕ
on_machine listing machine price = record (offer_at price 990000 1000000000) {
  offer_id = listing;
  machine_id = machine;
}

abbrev criteria_1 : Criteria ℕ
criteria_1 = record {
  gpu_model = [];
  gpu_count = 0;
  vram_per_gpu_gb = 0;
  vram_total_gb = 0;
  max_gpu_count = 0;
  allow_low_stock = false;
  cpu_cores = 0;
  ram_gb = 0;
  disk_gb = 0;
  regions = [];
  block_regions = [];
  max_price_hr = 0;
  interruptible = forbid;
  min_reliability = 0;
  providers = [];
  certified_only = false;
  allow_deverified = false;
  min_net_mbps = 0;
}

abbrev policy_1 : Policy ℕ
policy_1 = record {
  reliability_floor = 900000;
  outlier_factor = 3000000;
  min_class_sample = 8;
  cold_start_bytes = 0;
  session_hours = 1000000;
}

abbrev facts_2 : Facts ℕ
facts_2 = record {
  params = 8000000;
  layers = 32;
  kv_heads = 8;
  head_dim = 128;
  hidden_size = 4096;
  max_context_len = 131072;
  attention_heads = 32;
  ref = [];
  revision = [];
  quant_method = [];
  active_params = 0;
}

abbrev outside_1 : Outside millionths
outside_1 = record {
  weights = none;
  default_quantization = bytes "fp16";
  weight_bytes = 4000000000;
  facts = answered facts_2;
  market = λ c. answered (
      on_machine (bytes "o1") (bytes "m1") 100000
      ∷ on_machine (bytes "o2") (bytes "m1") 110000
      ∷ on_machine (bytes "o3") (bytes "m2") 120000
      ∷ []);
  reports_stock = false;
  requires = record {
    min_compute_capability = 75;
    min_cuda = 0;
    tensor_parallel = true;
    vendor = [];
  };
  accepts_quant = none;
  parse_float = λ s. none;
}

abbrev request_2 : UpRequest millionths
request_2 = record {
  criteria = criteria_1;
  model = record { ref = bytes "a/b"; revision = []; quantization = []; context_len = 0 };
  disk_gb = 0;
}

abbrev none_excluded : Exclusions
none_excluded = record { machines = []; listings = []; failed_models = [] }

-- A host that does not come up, and then one that does.
abbrev after_attempt : ℕ → After
after_attempt i =
    if i == 1
    then broke (record { class = host_failure; op = bytes "wait"; is_deadline = false }) true false
        false
    else serving

abbrev attempts_1 : ℕ → AttemptWorld millionths
attempts_1 i = record { outside = outside_1; after = after_attempt i }

tried_machines :
    map
      (λ t. t.offer.machine_id)
      (up_and_serve millionths attempts_1 policy_1 request_2 0 none_excluded true true).tries
    ≡ bytes "m1" ∷ bytes "m2" ∷ []
unfolding up_and_serve survey plan validate text_eq select filter contains retired_models
    cold_start_bytes plan_weighed settle total_bytes capped_context shards shard_vram
tried_machines = refl

abbrev some_plan : SizingPlan millionths
some_plan = record {
  required_vram_bytes = 0;
  weights_bytes = 0;
  kv_cache_bytes = 0;
  fits_in_vram = false;
  tensor_parallel_size = 0;
  gpu_mem_utilization = none;
  context_len = 0;
  warnings = [];
}

abbrev no_survey : Survey millionths
no_survey = record {
  placed = some_plan;
  selected = record { offer = offer_at 0 0 0; reason = eligible; class_median = 0 };
  selection = record { selected = none; candidates = [] };
  disk_gb = 0;
  model = request_2.model;
}

abbrev survey_of : Surveyed millionths → Survey millionths
survey_of (surveyed s) = s
survey_of (not_surveyed e) = no_survey

survey_1 : Survey millionths
survey_1 = survey_of (survey millionths outside_1 policy_1 none_excluded request_2)

survey_1_lem : survey millionths outside_1 policy_1 none_excluded request_2 ≡ surveyed survey_1
unfolding machine_key survey_1 survey plan validate text_eq select filter contains retired_models
    cold_start_bytes plan_weighed settle total_bytes capped_context shards shard_vram
survey_1_lem = refl

survey-Checked_example : Checked millionths outside_1 policy_1 none_excluded request_2 survey_1
survey-Checked_example =
    survey-Checked millionths outside_1 policy_1 none_excluded request_2 survey_1 survey_1_lem

survey-fits_example :
    (f : Facts ℕ) × (need : SizingPlan millionths) × (let o = survey_1.selected.offer in
      let base = base_request millionths outside_1 survey_1.model f in
      let n = shards f o.gpu_count true in
      (outside_1.facts ≡ answered f)
      × (satisfies_vendor outside_1.requires o.gpu_vendor ≡ true)
      × ((satisfies outside_1.requires o.compute_capability ≡ true)
          × ((satisfies_cuda millionths outside_1.requires
                  (parse_cuda millionths outside_1 o.cuda_version)
                ≡ true)
              × (IsNeeded millionths base outside_1.requires o need
                  × HasRoom millionths (record base { gpu_count = n }) need survey_1.placed))))
survey-fits_example =
    survey-fits millionths outside_1 policy_1 none_excluded request_2 survey_1 survey_1_lem

up_and_serve-Elsewhere_example :
    Elsewhere
      (up_and_serve millionths attempts_1 policy_1 request_2 0 none_excluded true true).tries
up_and_serve-Elsewhere_example =
    up_and_serve-Elsewhere millionths attempts_1 policy_1 request_2 0 none_excluded true true

-- A listing that failed before, on a provider that named no machine then.
abbrev once_failed : Exclusions
once_failed = record { machines = []; listings = bytes "vast:oo1" ∷ []; failed_models = [] }

once_failed_lem :
    contains once_failed.listings (offer_key (on_machine (bytes "o1") [] 100000)) ≡ true
unfolding contains offer_key text_eq
once_failed_lem = refl

up_and_serve-listings_example :
    All
      (λ t. offer_key t.offer ≡ offer_key (on_machine (bytes "o1") [] 100000) → ⊥)
      (up_and_serve millionths attempts_1 policy_1 request_2 0 once_failed true true).tries
up_and_serve-listings_example =
    up_and_serve-listings millionths attempts_1 policy_1 request_2 0 once_failed true true
      (on_machine (bytes "o1") [] 100000) once_failed_lem

up_and_serve-Paced_example :
    let b = up_and_serve millionths attempts_1 policy_1 request_2 0 none_excluded true true in
    Paced 3 b.tries b.ending
up_and_serve-Paced_example =
    up_and_serve-Paced millionths attempts_1 policy_1 request_2 0 none_excluded true true
