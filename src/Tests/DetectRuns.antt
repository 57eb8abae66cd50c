-- ===== src/Tests/DetectRuns.antt =====
-- The detection of GPUs (client/cuda.go, client/opencl.go) on small outputs.
use red_team_coin.Base.{◌≡◌, refl, Option, some, none, [], ◌∷◌, Text, text, I64, text_eq}
use red_team_coin.Gpu.{has_devices}
use red_team_coin.Gpu.Detect.{
  grow, split, starts_with, contains, count_from, devices_from, read_parts, read_lines, cuda_device,
  detect_cuda, detect_amd_gpus, open_cl_device, detect_via_clinfo, detect_open_cl,
}

abbrev same_text : Text → Text
same_text t = t

abbrev no_number : Text → Option I64
no_number t = none

abbrev two_cards : Text
two_cards = text "0,A100,40960\n1;broken\n2,T4,16000"

abbrev clinfo_output : Text
clinfo_output = text "Device Type CPU\nDevice Type GPU"

splits : split b',' (text "0,A100,") ≡ text "0" ∷ text "A100" ∷ [] ∷ []
unfolding split grow
splits = refl

-- The second line has one part only, and the third keeps its index.
finds_two :
    detect_cuda same_text no_number (some two_cards)
    ≡ cuda_device same_text no_number 0 (text "A100") (text "40960")
      ∷ cuda_device same_text no_number 2 (text "T4") (text "16000")
      ∷ []
unfolding detect_cuda read_lines read_parts split grow
finds_two = refl

-- A processor counts as a second GPU.
counts_processor :
    detect_open_cl same_text no_number none (some clinfo_output)
    ≡ open_cl_device 0 ∷ open_cl_device 1 ∷ []
unfolding detect_open_cl detect_amd_gpus has_devices detect_via_clinfo count_from contains
    starts_with devices_from text_eq
counts_processor = refl
