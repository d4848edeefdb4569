-- ===== src/Examples/Caches.antt =====
-- Runs of the cache backends (src/network/cache.py), on thousandths.
use finpipe.Base.{ℕ, ◌≡◌, refl, false, some, List, [], ◌∷◌, String, str_eq, if◌then◌else◌, arith}
use finpipe.Float.{Float, less}
use finpipe.Examples.Milli.{milli}
use finpipe.Examples.Setup.{unbounded}
use finpipe.Cache.Backend.{Call, latest}
use finpipe.Cache.Memory.{memory_get, memory_set, memory_get-latest}
use finpipe.Cache.Sqlite.{
  Codec, SqliteCall, getting, setting, sqlite_get, sqlite_set, after_calls, last_written,
  sqlite_get-latest,
}
use finpipe.Errors.{ok, raise, type_error, other_error}

instance thousandths : Float ℕ
thousandths = milli

abbrev text : Codec String
text = record {
  dumps = λ s. if str_eq s "datetime" then raise (type_error "not serializable") else ok s;
  loads = λ s. some s;
  loads-dumps = λ s t h. ground arith;
}

abbrev calls : List (Call String ℕ)
calls =
    Call.getting 2000 "spot:AAPL"
    ∷ Call.setting 1000 "spot:MSFT" "410" 5000
    ∷ Call.setting 0 "spot:AAPL" "190" 5000
    ∷ []

memory_get-latest_example :
    (expiry : ℕ) × (latest "spot:AAPL" calls ≡ some ("190", expiry)) × (less expiry 3000 ≡ false)
unfolding memory_get memory_set thousandths
memory_get-latest_example = memory_get-latest unbounded calls 3000 "spot:AAPL" "190" refl

-- two writes that fail, one at the dump and one at the statement, behind one that does not
abbrev writes : List (SqliteCall String ℕ)
writes =
    setting 2500 "spot:AAPL" "200" 5000 (raise (other_error "disk is full"))
    ∷ getting 2000 "spot:AAPL"
    ∷ setting 1000 "spot:AAPL" "datetime" 5000 (ok tt)
    ∷ setting 0 "spot:AAPL" "190" 5000 (ok tt)
    ∷ []

sqlite_get-latest_example :
    (expiry : ℕ) × (last_written text "spot:AAPL" writes ≡ some ("190", expiry))
    × (less expiry 3000 ≡ false)
unfolding sqlite_get sqlite_set after_calls thousandths
sqlite_get-latest_example = sqlite_get-latest text writes 3000 "spot:AAPL" "190" refl
