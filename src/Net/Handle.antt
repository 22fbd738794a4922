-- ===== src/Net/Handle.antt =====
-- `NetHandle` of crates/net/src/node.rs: what its calls give, from the replies of the network task to
-- the command that they sent. A call whose channel is closed, since the task has shut down, fails.
use dotminecraft.Prelude.{◌==◌, Option, none, some, List, [], ◌∷◌, Result, ok, err, if◌then◌else◌}
use dotminecraft.Core.Text.{Str, Bytes, text}
use dotminecraft.Net.Message.{Waiter, DoctorInfo, Reply, done, records, report}

-- `map_err(closed)`
abbrev pub or_closed : {A : Type 0} → Option A → Result Str A
or_closed (some a) = ok a
or_closed none = err (text "network task has shut down")

-- What came on the channel of a call.
abbrev pub done_for : Waiter → List Reply → Option (Result Str (Unit {0}))
done_for resp [] = none
done_for resp (done w res ∷ replies) = if w == resp then some res else done_for resp replies
done_for resp (reply ∷ replies) = done_for resp replies

abbrev pub records_for : Waiter → List Reply → Option (List Bytes)
records_for resp [] = none
records_for resp (records w found ∷ replies) =
    if w == resp then some found else records_for resp replies
records_for resp (reply ∷ replies) = records_for resp replies

abbrev pub report_for : Waiter → List Reply → Option DoctorInfo
report_for resp [] = none
report_for resp (report w info ∷ replies) = if w == resp then some info else report_for resp replies
report_for resp (reply ∷ replies) = report_for resp replies

-- `put_record` and `dial`
unfoldable pub await_done : Waiter → List Reply → Result Str (Unit {0})
await_done resp replies = elim (or_closed (done_for resp replies)) [ ok res ↦ res | err e ↦ err e ]

-- `get_record`
unfoldable pub await_records : Waiter → List Reply → Result Str (List Bytes)
await_records resp replies = or_closed (records_for resp replies)

-- `doctor`
unfoldable pub await_report : Waiter → List Reply → Result Str DoctorInfo
await_report resp replies = or_closed (report_for resp replies)
