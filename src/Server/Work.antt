-- ===== src/Server/Work.antt =====
-- A whole round of `Hub::Work` of RankingServer/src/Hub.cpp, among the steps of the server.
use ranking_server.Base.{
  ℕ, ◌*◌, ◌≡◌, subst, refl, some, ◌>>=◌, >>=-eq-some, Bool, true, false, arith, if◌then◌else◌, none,
}
use ranking_server.Outside.Flat.{FlatBuffers}
use ranking_server.Outside.Json.{JsonLibrary}
use ranking_server.Outside.Redis.{Redis}
use ranking_server.Outside.Odbc.{Odbc}
use ranking_server.Outside.Calendar.{Calendar}
use ranking_server.Converter.{Codepages}
use ranking_server.Database.{score_data_save, ranking_update, ranking_data_load}
use ranking_server.Network.State.{Network}
use ranking_server.Hub.{work_round, update_interval}
use ranking_server.Server.{Server, Step, Reach, sleeps}

module _ (fb : FlatBuffers) (js : JsonLibrary) (rd : Redis) (cp : Codepages) (cal : Calendar)
    (od : Odbc) (htonl ntohl : ℕ → ℕ) where
  -- The main thread of a state that a round begins and ends with.
  abbrev pub resting : Network → od.Db × rd.Store → Server rd od
  resting n (db, cache) = record { network = n; cache = cache; db = db; phase = sleeps; slept = 0 }

  round-Reach :
      (fuel : ℕ) (n : Network) (db : od.Db) (cache : rd.Store) (ended : Bool) (db' : od.Db)
      (r : od.Db × rd.Store)
      → let later = rd.elapse (60 * update_interval) cache in
        score_data_save js rd cp cal od fuel later db ≡ some (ended, db')
        → (if ended
            then (do
              let db'' = ranking_update js rd cp cal od db'
              s'' ← ranking_data_load js rd cp cal od db'' (rd.elapse (60 * update_interval) cache)
              some (db'', s''))
            else none)
          ≡ some r
        → Reach fb js rd cp cal od htonl ntohl (resting n (db, cache)) (resting n r)
  round-Reach fuel n db cache false db' r saving rest = cc
  round-Reach fuel n db cache true db' r saving rest =
      let later = rd.elapse (60 * update_interval) cache in
      let db'' = ranking_update js rd cp cal od db' in
      let (cache'', loading, same) =
        >>=-eq-some (ranking_data_load js rd cp cal od db'' later) _ rest in
      let is_r : (db'', cache'') ≡ r = cc in
      subst (λ t. Reach fb js rd cp cal od htonl ntohl (resting n (db, cache)) (resting n t)) is_r
        (Reach.next
          (Reach.next
            (Reach.next (Reach.next Reach.here (Step.waited (60 * update_interval) refl))
              (Step.saves fuel db' refl (omega arith) saving refl))
            (Step.updates refl refl))
          (Step.loads cache'' refl loading refl))

  -- A round of Hub::Work that returns, from where the main thread begins to sleep, is a run of the
  -- server in which no session thread makes a step.
  pub work_round-Reach :
      (fuel : ℕ) (n : Network) (w r : od.Db × rd.Store)
      → work_round js rd cp cal od fuel update_interval w ≡ some r
      → Reach fb js rd cp cal od htonl ntohl (resting n w) (resting n r)
  unfolding work_round
  work_round-Reach fuel n (db, cache) r done =
      let ((ended, db'), saving, rest) =
        >>=-eq-some
          (score_data_save js rd cp cal od fuel (rd.elapse (60 * update_interval) cache) db) _
          done in
      round-Reach fuel n db cache ended db' r saving rest
