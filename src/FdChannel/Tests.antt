-- ===== src/FdChannel/Tests.antt =====
-- Each theorem about evpp/fd_channel.cc at a channel of its own.
use evpp.Base.{true, false, some, List, [], ◌∷◌, ◌≡◌, refl}
use evpp.FdChannel.{FdChannel, Backend}
use evpp.FdChannel.Watch.{
  IsSynced, Op, enable_read, enable_write, disable_read, disable_all, healthy, run, wanted_all,
  run-IsSynced,
}

-- An established connection that has data to send.
abbrev busy : FdChannel
busy = record {
  attached = true;
  events = record { read = true; write = true };
  event = true;
  registered = some (record { read = true; write = true });
  read_fn = true;
  write_fn = true;
}

busy-IsSynced : IsSynced busy
busy-IsSynced = record { flag = refl; watched = refl }

abbrev calls : List Op
calls = disable_all ∷ enable_read ∷ enable_write ∷ disable_read ∷ []

run-IsSynced_example :
    IsSynced (run healthy calls busy)
    × ((run healthy calls busy).events ≡ wanted_all calls busy.events)
run-IsSynced_example = run-IsSynced calls busy-IsSynced

abbrev flaky : List (Backend × Op)
flaky =
    (record { add_ok = false; del_ok = true }, disable_read)
    ∷ (record { add_ok = true; del_ok = false }, disable_all)
    ∷ []
