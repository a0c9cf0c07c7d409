-- ===== src/Examples/Jobs.antt =====
-- The controller of GPU jobs on concrete inputs.
use r_mini_k8s.Prelude.{refl, false, none, some, [], ◌∷◌, arith}
use r_mini_k8s.Objects.{Pod, PodPhase, GpuJob, GpuJobStatus}
use r_mini_k8s.GpuJobController.Defs.{pod_template, calculate_status, reconcile, reference}
use r_mini_k8s.GpuJobController.Bounds.{
  Steps, created, next, done, Steps-IsWithin, IsWithin, active_in, succeeded_in,
}
use r_mini_k8s.Examples.Data.{meta, status_with}

abbrev unprepared : GpuJob
unprepared = record {
  metadata = meta "train" [];
  spec = record {
    gpu_config = record {
      slurm_config = record {
        partition = "dgx2";
        total_core_number = 1;
        ntasks_per_node = 1;
        cpus_per_task = 1;
        gres = "gpu:1";
        scripts = none;
      };
      compile_scripts = "make";
    };
    completions = 2;
    parallelism = 1;
    back_off_limit = 6;
  };
  status = none;
}

abbrev idle : GpuJobStatus
unfolding pod_template
idle = record {
  active = 0;
  failed = 0;
  succeeded = 0;
  filename = some "train.zip";
  template = some (pod_template "registry/train" unprepared);
}

abbrev train : GpuJob
train = record unprepared { status = some idle }

abbrev first_pod : Pod
first_pod = record {
  metadata = record (meta "train-x1" []) { owner_references = reference unprepared ∷ [] };
  spec = (pod_template "registry/train" unprepared).spec;
  status = some (status_with PodPhase.pending false none);
}

abbrev posted : Pod
posted = record {
  metadata = (pod_template "registry/train" unprepared).metadata;
  spec = (pod_template "registry/train" unprepared).spec;
  status = none;
}

one_step : Steps train [] (("train-x1", first_pod) ∷ [])
unfolding calculate_status reconcile idle
one_step =
    next [] (("train-x1", first_pod) ∷ []) (("train-x1", first_pod) ∷ [])
      (created [] idle posted "train-x1" first_pod refl refl refl)
      (done (("train-x1", first_pod) ∷ []))

nothing_runs : IsWithin train []
unfolding active_in succeeded_in
nothing_runs = (omega arith, omega arith)

Steps-IsWithin_example : IsWithin train (("train-x1", first_pod) ∷ [])
Steps-IsWithin_example =
    Steps-IsWithin train [] (("train-x1", first_pod) ∷ []) (omega arith) one_step nothing_runs
