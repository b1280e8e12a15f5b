-- ===== src/Continuous/Connection.antt =====
-- continuous/db.go: the pool of database connections, which is opened once. A pool is a number.
use shutter_tests.Prelude.{ℕ, ◌≡◌, arith, List, ◌++◌, none, some}
use shutter_tests.Prelude.Text.{codes}
use shutter_tests.Prelude.Outcomes.{Outcome, ok, err, panic, explicit}
use shutter_tests.Continuous.Configure.{Configuration}

unfoldable pub connection_string : Configuration → List ℕ
connection_string cfg =
    codes "postgres://"
    ++ (codes cfg.db_user
        ++ (codes ":"
            ++ (codes cfg.db_pass
                ++ (codes "@"
                    ++ (codes cfg.db_addr
                        ++ (codes "/" ++ (codes cfg.db_name ++ codes "?sslmode=disable")))))))

open_pool : Outcome ℕ → Configuration → Outcome (ℕ × Configuration)
open_pool (ok db) cfg = ok (db, record cfg { db = some db })
open_pool (err e) cfg = panic (explicit "db connection failed")
open_pool (panic p) cfg = panic p

-- GetConnection, with what `pgxpool.New` answers to a connection string.
unfoldable pub get_connection : (List ℕ → Outcome ℕ) → Configuration → Outcome (ℕ × Configuration)
unfolding open_pool connection_string
get_connection new_pool cfg = elim cfg.db [
  | some db ↦ ok (db, cfg)
  | none ↦ open_pool (new_pool (connection_string cfg)) cfg
]

-- A pool that was returned once is returned by every later call, which opens none, whatever a new one
-- would be.
pub get_connection_again :
    (new_pool other_pool : List ℕ → Outcome ℕ) (cfg cfg' : Configuration) (db : ℕ)
    → get_connection new_pool cfg ≡ ok (db, cfg')
    → get_connection other_pool cfg' ≡ ok (db, cfg')
unfolding get_connection
get_connection_again new_pool other_pool cfg cfg' db h = ground (arith, h)
