-- ===== src/Log/Laws.antt =====
-- Where a record goes: to SAMPLE_FILE, or to SAMPLE_RAM while an upload runs.
use ri_mms_linux.Prelude.{ℕ, List, ◌++◌}
use ri_mms_linux.Log.{Files, content}

-- All samples that the unit still has, in the order in which an upload will see them.
abbrev pub stored : Files → List ℕ
stored f = content f.sample ++ content f.sample_ram
