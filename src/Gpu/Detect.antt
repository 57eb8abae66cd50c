-- ===== src/Gpu/Detect.antt =====
-- client/cuda.go and client/opencl.go, DetectDevices: the devices in the output of nvidia-smi,
-- rocm-smi and clinfo. An output is an argument, with none where the command fails, and so are
-- strings.TrimSpace and fmt.Sscanf, which gives none where it finds no number.
use red_team_coin.Base.{
  ℕ, suc, zero, ◌-◌, ◌*◌, ◌^◌, ◌%◌, Bool, true, ◌&&◌, Option, none, some, List, [], ◌∷◌, ◌++◌, leb,
  ◌==◌, if◌then◌else◌, length, take, Text, text, text_eq, I64, format_int,
}
use red_team_coin.Config.{is_empty}
use red_team_coin.Gpu.{GpuDevice, GpuMiner, new_gpu_miner, has_devices}

-- A byte in front of the first part.
unfoldable pub grow : ℕ → List Text → List Text
grow b [] = (b ∷ []) ∷ []
grow b (part ∷ parts) = (b ∷ part) ∷ parts

-- strings.Split at one byte.
unfoldable pub split : ℕ → Text → List Text
split at [] = [] ∷ []
split at (b ∷ bytes) = let parts = split at bytes in if b == at then [] ∷ parts else grow b parts

unfoldable pub starts_with : Text → Text → Bool
starts_with whole part = leb (length part) (length whole) && text_eq (take (length part) whole) part

-- strings.Contains.
unfoldable pub contains : Text → Text → Bool
contains [] part = is_empty part
contains (b ∷ bytes) part =
    let later = contains bytes part in if starts_with (b ∷ bytes) part then true else later

-- strings.Count, which counts without overlaps, from where the last match ends; for parts that are
-- not empty.
unfoldable pub count_from : ℕ → Text → Text → ℕ
count_from skip [] part = 0
count_from zero (b ∷ bytes) part =
    let inside = count_from (length part - 1) bytes part in
    let outside = count_from 0 bytes part in
    if starts_with (b ∷ bytes) part then suc inside else outside
count_from (suc skip) (b ∷ bytes) part = count_from skip bytes part

-- Devices 0 to n - 1 of one sort, from an index on.
unfoldable pub devices_from : ℕ → ℕ → (ℕ → GpuDevice) → List GpuDevice
devices_from i zero device = []
devices_from i (suc n) device = device i ∷ devices_from (suc i) n device

unfoldable pub amd_device : ℕ → GpuDevice
amd_device i = record {
  id = i;
  name = text "AMD Radeon GPU " ++ format_int i;
  kind = text "OpenCL";
  memory = 8 * 1024 * 1024 * 1024;
  compute_units = 64;
  available = true;
}

unfoldable pub open_cl_device : ℕ → GpuDevice
open_cl_device i = record {
  id = i;
  name = text "OpenCL GPU " ++ format_int i;
  kind = text "OpenCL";
  memory = 4 * 1024 * 1024 * 1024;
  compute_units = 64;
  available = true;
}

-- The lines that contain GPU.
unfoldable pub count_gpu_lines : List Text → ℕ
count_gpu_lines [] = 0
count_gpu_lines (line ∷ lines) =
    let rest = count_gpu_lines lines in if contains line (text "GPU") then suc rest else rest

unfoldable pub detect_via_clinfo : Option Text → List GpuDevice
detect_via_clinfo none = []
detect_via_clinfo (some output) =
    if contains output (text "Device") && contains output (text "GPU")
    then devices_from 0 (count_from 0 output (text "Device Type")) open_cl_device
    else []

module _ (trim_space : Text → Text) (scan : Text → Option I64) where
  -- The memory in bytes, from megabytes; 2 GB where there is no number.
  unfoldable pub to_memory : Option I64 → I64
  to_memory none = 2048 * 1024 * 1024 % 2 ^ 64
  to_memory (some m) = m * 1024 * 1024 % 2 ^ 64

  unfoldable pub cuda_device : ℕ → Text → Text → GpuDevice
  cuda_device i name memory = record {
    id = i;
    name = text "NVIDIA " ++ trim_space name;
    kind = text "CUDA";
    memory = to_memory (scan (trim_space memory));
    compute_units = 128;
    available = true;
  }

  -- A line with less than three parts is left out; an empty line has one.
  unfoldable pub read_parts : ℕ → List Text → List GpuDevice
  read_parts i [] = []
  read_parts i (a ∷ []) = []
  read_parts i (a ∷ b ∷ []) = []
  read_parts i (a ∷ name ∷ memory ∷ more) = cuda_device i name memory ∷ []

  unfoldable pub read_lines : ℕ → List Text → List GpuDevice
  read_lines i [] = []
  read_lines i (line ∷ lines) = read_parts i (split b',' line) ++ read_lines (suc i) lines

  unfoldable pub detect_cuda : Option Text → List GpuDevice
  detect_cuda none = []
  detect_cuda (some output) = read_lines 0 (split b'\n' (trim_space output))

  unfoldable pub detect_amd_gpus : Option Text → List GpuDevice
  detect_amd_gpus none = []
  detect_amd_gpus (some output) =
      devices_from 0 (count_gpu_lines (split b'\n' (trim_space output))) amd_device

  -- OpenCLMiner.DetectDevices: clinfo only where rocm-smi shows no device.
  unfoldable pub detect_open_cl : Option Text → Option Text → List GpuDevice
  detect_open_cl rocm clinfo =
      let amd = detect_amd_gpus rocm in if has_devices amd then amd else detect_via_clinfo clinfo

  -- NewGPUMiner from what nvidia-smi, rocm-smi and clinfo print.
  unfoldable pub detect_gpus : Option Text → Option Text → Option Text → GpuMiner
  detect_gpus nvidia rocm clinfo = new_gpu_miner (detect_cuda nvidia) (detect_open_cl rocm clinfo)
