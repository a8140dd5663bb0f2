-- ===== src/Priority.antt =====
-- internal/priority/priority.go: the uint8 priorities, higher is more important. 0 has no name.
use atlassian_sampling_proce.Base.{ℕ, String, ◌==◌, if◌then◌else◌}

abbrev pub Priority : Type 0
Priority = ℕ

abbrev pub low : Priority
low = 1

abbrev pub unspecified : Priority
unspecified = 2

unfoldable pub to_string : Priority → String
to_string p = if p == unspecified then "Unspecified" else if p == low then "Low" else ""
