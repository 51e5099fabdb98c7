-- ===== src/App/Badge.antt =====
-- `renderConnection` of web/nasa_web/static/js/app.js.
use nasa_cpp.Base.{
  ◌≡◌, inl, inr, Bool, true, false, not, ◌&&◌, Option, none, some, String, arith, lookup,
  if◌then◌else◌, Option-cases,
}
use nasa_cpp.Base.Number.{Number, ◌⊖◌, ◌≺◌}
use nasa_cpp.Entity.{Entity}
use nasa_cpp.Store.{Store, Message, on_message, by_id, write_state}

pub data Badge : Type 0 where
  server_offline mqtt_disconnected no_data live : Badge

module _ {R : Type 0} ⦃num : Number R⦄ where
  -- `last_message && now - last_message < 120`
  abbrev pub is_recent : R → Option R → Bool
  is_recent now none = false
  is_recent now (some ts) = not (num.same ts (num.of_nat 0)) && num.lt (now ⊖ ts) (num.of_nat 120)

  unfoldable pub badge : R → Store R → Badge
  badge now s =
      if not s.ws_connected
      then server_offline
      else if not s.status.mqtt
      then mqtt_disconnected
      else if not (is_recent now s.status.last_message)
      then no_data
      else live

  -- While the server and the broker are connected, a state message of a known entity makes the badge
  -- live for two minutes from its time stamp.
  state-live :
      (lower : String → String) (s : Store R) (id : String) (value : Option R)
      (text : Option String) (ts now : R) (e : Entity R)
      → s.ws_connected ≡ true
      → s.status.mqtt ≡ true
      → by_id s id ≡ some e
      → num.same ts (num.of_nat 0) ≡ false
      → now ⊖ ts ≺ num.of_nat 120
      → badge now (on_message lower s (Message.state id value text ts)).0 ≡ live
  unfolding badge on_message by_id write_state
  state-live lower s id value text ts now e up broker known set recent =
      elim (Option-cases (lookup id s.entities)) [
        | inl missing ↦ ground arith
        | inr (p, found) ↦ ground arith
      ]
