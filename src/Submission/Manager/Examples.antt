-- ===== src/Submission/Manager/Examples.antt =====
-- The manager at concrete submissions.
use flux_backend.Common.{ℕ, true, none, [], ◌∷◌, ℕ_eq, Text, text}
use flux_backend.Common.Int.{ℤ}
use flux_backend.Submission.Model.{CfSubResult}
use flux_backend.Submission.Manager.{FluxSubmission, NyxWatcher, NyxManager}

abbrev short_text : ℕ → Text
short_text id = text "0a1b2c3d"

abbrev empty : NyxManager
empty = record { watchers = []; registered = []; posted = [] }

abbrev complete : FluxSubmission
complete = record {
  submission_id = 40;
  solution = (text "solution", text "print(1)") ∷ (text "language", text "Python 3") ∷ [];
}

abbrev no_language : FluxSubmission
no_language = record { submission_id = 41; solution = (text "solution", text "print(1)") ∷ [] }

abbrev watcher : NyxWatcher
watcher = record { mail_id = text "mail@watcher-0a1b2c3d"; solution = []; running = true }

abbrev watching : NyxManager
watching = record { watchers = (40, watcher) ∷ []; registered = []; posted = [] }

abbrev done : CfSubResult
done = record {
  status = record {
    cf_sub_id = ℤ.pos 10;
    verdict = text "OK";
    time_consumed_millis = ℤ.pos 15;
    memory_consumed_bytes = ℤ.pos 1000;
    passed_test_count = ℤ.pos 3;
  };
  err = none;
  submission_id = 40;
}
