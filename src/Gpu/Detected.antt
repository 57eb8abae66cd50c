-- ===== src/Gpu/Detected.antt =====
-- The devices that NewGPUMiner detects (client/gpu.go) have ascending numbers within each kind.
use red_team_coin.Base.{
  ℕ, suc, zero, Bool, true, ◌&&◌, Option, none, some, List, [], ◌∷◌, ◌++◌, leb, if_intro, ◌≡◌, refl,
  subst, sym, Text, text, I64, arith,
}
use red_team_coin.Gpu.{GpuDevice, new_gpu_miner, has_devices}
use red_team_coin.Gpu.Detect.{
  devices_from, amd_device, open_cl_device, count_gpu_lines, count_from, contains, split,
  read_lines, read_parts, cuda_device, detect_cuda, detect_amd_gpus, detect_via_clinfo,
  detect_open_cl, detect_gpus,
}

unfoldable pub ascends_from : ℕ → List GpuDevice → Bool
ascends_from low [] = true
ascends_from low (d ∷ devices) = leb low d.id && ascends_from (suc d.id) devices

ascends_from-suc :
    (i : ℕ) (devices : List GpuDevice)
    → ascends_from (suc i) devices ≡ true
    → ascends_from i devices ≡ true
unfolding ascends_from
ascends_from-suc i [] h = refl
ascends_from-suc i (d ∷ devices) h = ground arith

devices_from-ascends :
    (i n : ℕ) (device : ℕ → GpuDevice)
    → ((j : ℕ) → (device j).id ≡ j)
    → ascends_from i (devices_from i n device) ≡ true
unfolding ascends_from devices_from
devices_from-ascends i zero device ids = refl
devices_from-ascends i (suc n) device ids =
    let same = ids i in
    let rest = devices_from-ascends (suc i) n device ids in
    let here : (leb i i && ascends_from (suc i) (devices_from (suc i) n device)) ≡ true =
      ground arith in
    subst (λ k. (leb i k && ascends_from (suc k) (devices_from (suc i) n device)) ≡ true) (sym same)
      here

module _ (trim_space : Text → Text) (scan : Text → Option I64) where
  read_parts-ascends :
      (i : ℕ) (parts : List Text) (devices : List GpuDevice)
      → ascends_from (suc i) devices ≡ true
      → ascends_from i (read_parts trim_space scan i parts ++ devices) ≡ true
  unfolding read_parts cuda_device ascends_from
  read_parts-ascends i [] devices h = ascends_from-suc i devices h
  read_parts-ascends i (a ∷ []) devices h = ascends_from-suc i devices h
  read_parts-ascends i (a ∷ b ∷ []) devices h = ascends_from-suc i devices h
  read_parts-ascends i (a ∷ name ∷ memory ∷ more) devices h = ground arith

  read_lines-ascends :
      (i : ℕ) (lines : List Text) → ascends_from i (read_lines trim_space scan i lines) ≡ true
  unfolding read_lines ascends_from
  read_lines-ascends i [] = refl
  read_lines-ascends i (line ∷ lines) =
      read_parts-ascends i (split b',' line) (read_lines trim_space scan (suc i) lines)
        (read_lines-ascends (suc i) lines)

  detect_cuda-ascends :
      (nvidia : Option Text) → ascends_from 0 (detect_cuda trim_space scan nvidia) ≡ true
  unfolding detect_cuda ascends_from
  detect_cuda-ascends none = refl
  detect_cuda-ascends (some output) = read_lines-ascends 0 (split b'\n' (trim_space output))

  detect_amd_gpus-ascends :
      (rocm : Option Text) → ascends_from 0 (detect_amd_gpus trim_space scan rocm) ≡ true
  unfolding detect_amd_gpus amd_device ascends_from
  detect_amd_gpus-ascends none = refl
  detect_amd_gpus-ascends (some output) =
      devices_from-ascends 0 (count_gpu_lines (split b'\n' (trim_space output))) amd_device
        (λ j. refl)

  detect_via_clinfo-ascends :
      (clinfo : Option Text) → ascends_from 0 (detect_via_clinfo clinfo) ≡ true
  unfolding detect_via_clinfo open_cl_device ascends_from
  detect_via_clinfo-ascends none = refl
  detect_via_clinfo-ascends (some output) =
      if_intro (λ ds. ascends_from 0 ds ≡ true)
        (contains output (text "Device") && contains output (text "GPU"))
        (λ e.
          devices_from-ascends 0 (count_from 0 output (text "Device Type")) open_cl_device
            (λ j. refl))
        (λ e. refl)

  detect_open_cl-ascends :
      (rocm clinfo : Option Text)
      → ascends_from 0 (detect_open_cl trim_space scan rocm clinfo) ≡ true
  unfolding detect_open_cl
  detect_open_cl-ascends rocm clinfo =
      if_intro (λ ds. ascends_from 0 ds ≡ true) (has_devices (detect_amd_gpus trim_space scan rocm))
        (λ e. detect_amd_gpus-ascends rocm) (λ e. detect_via_clinfo-ascends clinfo)

  -- Whatever the tools print, the numbers of the CUDA devices of a new GPUMiner ascend, and so do those
  -- of its OpenCL devices: no two of one kind have the same number.
  detect_gpus-ascends :
      (nvidia rocm clinfo : Option Text)
      → (ascends_from 0 (detect_gpus trim_space scan nvidia rocm clinfo).cuda_miner.devices ≡ true)
        × (ascends_from 0 (detect_gpus trim_space scan nvidia rocm clinfo).open_cl_miner.devices
            ≡ true)
  unfolding detect_gpus new_gpu_miner
  detect_gpus-ascends nvidia rocm clinfo =
      (detect_cuda-ascends nvidia, detect_open_cl-ascends rocm clinfo)
