-- ===== src/GpuJobController/Files.antt =====
-- The texts that the controller writes for a job (`gen_config_file`, `gen_docker_file`).
use r_mini_k8s.Prelude.{
  String, Option, none, some, List, [], ◌∷◌, Outcome, ok, error, ◌>>=◌, text, decimal,
}
use r_mini_k8s.Objects.{GpuJob, GpuJobStatus, SlurmConfig}

abbrev status_or_error : Option GpuJobStatus → Outcome GpuJobStatus
status_or_error none = error
status_or_error (some status) = ok status

-- utils.rs
unfoldable pub get_job_status : GpuJob → Outcome GpuJobStatus
get_job_status job = status_or_error job.status

abbrev filename_or_error : Option String → Outcome String
filename_or_error none = error
filename_or_error (some filename) = ok filename

unfoldable pub get_job_filename : GpuJob → Outcome String
unfolding get_job_status
get_job_filename job = do status ← get_job_status job; filename_or_error status.filename

abbrev lines : List String → List String
lines [] = []
lines (script ∷ scripts) = script ∷ "\n" ∷ lines scripts

abbrev script_lines : Option (List String) → List String
script_lines none = []
script_lines (some scripts) = lines scripts

-- The content of the slurm file
unfoldable pub config_file : GpuJob → String
unfolding decimal
config_file job =
    let config : SlurmConfig = job.spec.gpu_config.slurm_config in
    text (
      "#!/bin/bash\n\n"
      ∷ "#SBATCH --job-name="
      ∷ job.metadata.name
      ∷ "\n"
      ∷ "#SBATCH --partition="
      ∷ config.partition
      ∷ "\n"
      ∷ "#SBATCH --output=%j.out\n"
      ∷ "#SBATCH --error=%j.err\n"
      ∷ "#SBATCH -N "
      ∷ decimal config.total_core_number
      ∷ "\n"
      ∷ "#SBATCH --ntasks-per-node="
      ∷ decimal config.ntasks_per_node
      ∷ "\n"
      ∷ "#SBATCH --cpus-per-task="
      ∷ decimal config.cpus_per_task
      ∷ "\n"
      ∷ "#SBATCH --gres="
      ∷ config.gres
      ∷ "\n"
      ∷ script_lines config.scripts)

-- `GPU_SERVER_CONFIG`, read from the environment
pub record ServerConfig : Type 0 where
  pub username : String
  pub password : String

-- The content of the Dockerfile, after the base image
unfoldable pub docker_file : String → ServerConfig → GpuJob → Outcome String
unfolding get_job_filename
docker_file base_img server job = do
  code_file_name ← get_job_filename job
  ok (
      text (
        "FROM " ∷ base_img ∷ "\n" ∷ "COPY . /code/\n" ∷ "ENV USERNAME=" ∷ server.username
        ∷ " PASSWORD=" ∷ server.password ∷ " JOB_NAME=" ∷ job.metadata.name ∷ "\n"
        ∷ "ENV CODE_FILE_NAME=" ∷ code_file_name ∷ " COMPILE_SCRIPT="
        ∷ job.spec.gpu_config.compile_scripts ∷ "\n" ∷ []))
