-- ===== src/Tests/Builds.antt =====
-- The copy of the built program, at small pages.
use dotnet_web_api_startpack.Prelude.{lit, [], none, some, starts_with, ◌≡◌, refl, arith}
use dotnet_web_api_startpack.Sync.{synchronize, has_time, match_digits, count_digits}
use dotnet_web_api_startpack.Sync.Times.{done, same, time, stamped, synchronize-SameButTimes}

synchronize-SameButTimes_example :
    synchronize (some (stamped (lit "12") (lit "}"))) none
    ≡ synchronize (some (stamped (lit "1700000000") (lit "}"))) none
unfolding has_time match_digits count_digits starts_with
synchronize-SameButTimes_example =
    synchronize-SameButTimes none
      (time (lit "12") (lit "1700000000") (omega arith) (omega arith) (ground arith) (ground arith)
        (same b'}' {s = []} {t = []} refl refl done))
      refl
