-- ===== src/Services/NetworkBridge/Status.antt =====
-- What the debounce timer sends after a series of device commands.
use with_boost.Common.{
  ◌≡◌, ◌⊎◌, refl, sym, ap, ◌∙◌, true, false, Bool-cases, inl, inr, List, [], ◌∷◌, Text, text_eq,
  text_eq→eq, All, All-mono, is_empty, if◌then◌else◌, IsSorted, change_at-IsSorted, lookup,
  lookup-change_at, All-lookup,
}
use with_boost.Services.NetworkBridge.Body.{Effect}
use with_boost.Services.NetworkBridge.Device.{
  DeviceState, Pending, blank, is_status, set_states, send_device, process_pending_states,
  pending_bodies, device_body, is_blank,
}

pub record DeviceCall : Type 0 where
  pub ip : Text
  pub motor : Text
  pub ir : Text
  pub heater : Text

-- What one call means: a channel keeps its state where it is given none, and the motor where it is only moved.
pub given : Text → Text → Text → DeviceState → DeviceState
given motor ir heater st = record {
  motor = if is_status motor then motor else st.motor;
  ir = if is_empty ir then st.ir else ir;
  heater = if is_empty heater then st.heater else heater;
}

set_states-given :
    (motor ir heater : Text) (st : DeviceState)
    → set_states motor ir heater st ≡ given motor ir heater st
unfolding set_states given text_eq
set_states-given [] ir heater st = refl
set_states-given (c ∷ motor) ir heater st = refl

-- What a series of calls means for the states to be kept of one device.
pub status_of : Text → DeviceState → List DeviceCall → DeviceState
status_of k st [] = st
status_of k st (c ∷ cs) =
    let next = if text_eq c.ip k then given c.motor c.ir c.heater st else st in
    status_of k (if is_empty c.ip then st else next) cs

abbrev pub keys : Pending → List Text
keys [] = []
keys (e ∷ es) = e.0 ∷ keys es

module _ (to_std : Text → Text) where
  pub send_devices : Pending → List DeviceCall → Pending
  send_devices pending [] = pending
  send_devices pending (c ∷ cs) =
      send_devices (send_device to_std c.ip c.motor c.ir c.heater pending).0 cs

  send_device-IsSorted :
      (c : DeviceCall) (pending : Pending)
      → IsSorted pending
      → IsSorted (send_device to_std c.ip c.motor c.ir c.heater pending).0
  unfolding send_device
  send_device-IsSorted c pending h = elim (Bool-cases (is_empty c.ip)) [
    | inl e ↦ rw e h
    | inr e ↦ rw e (change_at-IsSorted blank c.ip (set_states c.motor c.ir c.heater) pending h)
  ]

  find-send_device :
      (k : Text) (c : DeviceCall) (pending : Pending)
      → IsSorted pending
      → lookup blank k (send_device to_std c.ip c.motor c.ir c.heater pending).0
        ≡ status_of k (lookup blank k pending) (c ∷ [])
  unfolding send_device status_of
  find-send_device k c pending h = elim (Bool-cases (is_empty c.ip)) [
    | inl e ↦ rw e refl
    | inr e ↦
        rw (e, lookup-change_at blank k c.ip (set_states c.motor c.ir c.heater) pending h)
          (agree (Bool-cases (text_eq c.ip k)))
  ]
    where
      agree :
          (text_eq c.ip k ≡ true) ⊎ (text_eq c.ip k ≡ false)
          → (if text_eq c.ip k
              then set_states c.motor c.ir c.heater (lookup blank c.ip pending)
              else lookup blank k pending)
            ≡ (if text_eq c.ip k
                then given c.motor c.ir c.heater (lookup blank k pending)
                else lookup blank k pending)
      agree (inl q) = rw q (
          ap (λ t. set_states c.motor c.ir c.heater (lookup blank t pending)) (text_eq→eq c.ip k q)
          ∙ set_states-given c.motor c.ir c.heater (lookup blank k pending))
      agree (inr q) = rw q refl

  status_of-cons :
      (k : Text) (st : DeviceState) (c : DeviceCall) (cs : List DeviceCall)
      → status_of k st (c ∷ cs) ≡ status_of k (status_of k st (c ∷ [])) cs
  unfolding status_of
  status_of-cons k st c cs = refl

  find-send_devices :
      (k : Text) (cs : List DeviceCall) (pending : Pending)
      → IsSorted pending
      → IsSorted (send_devices pending cs)
        × (lookup blank k (send_devices pending cs) ≡ status_of k (lookup blank k pending) cs)
  unfolding send_devices status_of
  find-send_devices k [] pending h = (h, refl)
  find-send_devices k (c ∷ cs) pending h =
      let next = (send_device to_std c.ip c.motor c.ir c.heater pending).0 in
      let (sorted, found) = find-send_devices k cs next (send_device-IsSorted c pending h) in
      (
        sorted,
        found
            ∙ ap (λ st. status_of k st cs) (find-send_device k c pending h)
            ∙ sym (status_of-cons k (lookup blank k pending) c cs),
      )

  -- One message for each of the devices that has a state to be kept.
  pub bodies_of : (Text → DeviceState) → List Text → List Effect
  bodies_of state [] = []
  bodies_of state (k ∷ ks) =
      if is_blank (state k)
      then bodies_of state ks
      else device_body to_std k (state k) ∷ bodies_of state ks

  pending_bodies-bodies_of :
      (state : Text → DeviceState) (es : Pending)
      → All (λ e. state e.0 ≡ e.1) es
      → pending_bodies to_std es ≡ bodies_of state (keys es)
  unfolding pending_bodies bodies_of
  pending_bodies-bodies_of state [] h = refl
  pending_bodies-bodies_of state (e ∷ es) h = rw (h.0, pending_bodies-bodies_of state es h.1) refl

  -- After any series of device commands since the timer last ended: the timer sends one message for each
  -- device that has a state to be kept, in ascending order of the IPs; it holds, for each channel, the last state that was
  -- given for it, and nothing for a channel that was given none. Movements of the motor do not count.
  pub process-status_of :
      (cs : List DeviceCall)
      → let pending = send_devices [] cs in
        (process_pending_states to_std pending
          ≡ ([], bodies_of (λ k. status_of k blank cs) (keys pending)))
        × IsSorted pending
        × ((k : Text) → lookup blank k pending ≡ status_of k blank cs)
  unfolding process_pending_states lookup
  process-status_of cs =
      let pending = send_devices [] cs in
      let found = λ (k : Text). find-send_devices k cs [] tt in
      let sorted = (found []).0 in
      (
        ap (λ out. ([], out))
            (pending_bodies-bodies_of (λ k. status_of k blank cs) pending
              (All-mono (λ e. lookup blank e.0 pending ≡ e.1) (λ e. status_of e.0 blank cs ≡ e.1)
                pending (λ e q. sym (found e.0).1 ∙ q) (All-lookup blank pending sorted))),
        sorted,
        λ k. (found k).1,
      )
