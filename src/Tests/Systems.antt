-- ===== src/Tests/Systems.antt =====
-- The running program at concrete inputs.
use ri_mms_linux.Prelude.{ℕ, ◌*◌, ◌≤◌, leb, true, false, ◌≡◌, refl, List, [], ◌∷◌, length, codes}
use ri_mms_linux.Prelude.Int.{pos}
use ri_mms_linux.Log.{content}
use ri_mms_linux.Log.Tags.{tag_power_off, tag_sampling_started}
use ri_mms_linux.Log.Entries.{AllRecords, sampling_started, concat, read_records}
use ri_mms_linux.Log.Readable.{IsLogged}
use ri_mms_linux.Command.{parse_from, parser_command}
use ri_mms_linux.Command.Reply.{ping_ok}
use ri_mms_linux.Command.Exec.{settled, exec_command, run_command}
use ri_mms_linux.Gateway.{Gateway, log_after_sor}
use ri_mms_linux.System.{Reaches, starts, parses, commands, at_start, after}
use ri_mms_linux.System.Readable.{Reaches-read_records}
use ri_mms_linux.Radio.Receiver.{parser}
use ri_mms_linux.Shutdown.{Thread, end_threads, slept}
use ri_mms_linux.Shutdown.Waits.{AllJudged, end_threads-AllJudged}
use ri_mms_linux.Tests.Fixtures.{calendar, moment, stack, files}
use ri_mms_linux.Tests.Commands.{world, instant, gateway}

-- The start of `thread_comunication`, a `Parser` with one byte, and a command.
abbrev started : Gateway ℕ
started = log_after_sor instant tag_power_off gateway

abbrev parsed : Gateway ℕ
parsed = record started { radio = parser moment calendar stack (58 ∷ []) started.radio }

runs : Reaches world gateway parsed
unfolding run_command settled exec_command parser_command parse_from
runs =
    after parsed parsed
      (after started parsed (after gateway started at_start (starts instant))
        (parses moment calendar stack (58 ∷ [])))
      (commands instant (codes "PING") (pos 0) ping_ok parsed refl refl)

pub files-IsLogged : IsLogged files
unfolding tag_sampling_started
files-IsLogged = record {
  in_sample = record {
    records = (2 ∷ []) ∷ [];
    all_records = (sampling_started, tt);
    whole = refl;
  };
  in_ram = record { records = []; all_records = tt; whole = refl };
  whole_writes = λ bytes. refl;
}

Reaches-read_records_example :
    (bs : List (List ℕ)) × AllRecords bs
    × (content ((parsed.radio).files).sample ≡ concat bs)
    × (read_records (length bs) (content ((parsed.radio).files).sample) ≡ bs)
Reaches-read_records_example = Reaches-read_records world gateway parsed runs files-IsLogged

-- One that ends after two seconds and one that hangs.
abbrev threads : List Thread
threads =
    record { stopped = λ i. leb 2 i; join = pos 0; canceled = false }
    ∷ record { stopped = λ i. false; join = pos 0; canceled = true }
    ∷ []

end_threads-AllJudged_example :
    (slept (end_threads threads) ≤ 11 * length threads) × AllJudged threads (end_threads threads)
end_threads-AllJudged_example = end_threads-AllJudged threads
