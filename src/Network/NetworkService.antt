-- ===== src/Network/NetworkService.antt =====
-- Src/Network/NetworkService.hpp and NetworkService.cpp. The strand is a queue of tasks, one thread runs them, and
-- what asio does by itself comes as events: the end of the connecting, of a session, of a receive. The socket
-- of a TCP session is counted as pending until its read has ended.
pub mod Order
pub mod Marks
pub mod Stuck
pub mod Ends
mod Examples
use with_boost.Common.{
  ℕ, zero, suc, ◌%◌, ◌^◌, Bool, true, false, ◌&&◌, not, List, [], ◌∷◌, ◌++◌, Text, length, ◌-◌,
  if◌then◌else◌, is_empty, ◌==◌,
}
use with_boost.Network.Protocol.{Message, type_code, image}
use with_boost.Network.MessageProcessor.{
  NetworkCallbacks, Call, calls, Callback, on_image_meta, on_login_result, on_login_fail,
  on_camera_list, on_device_status, on_ai_result, on_meta_result, on_assign, process_message,
}

pub data Task : Type 0 where
  resolves : Task
  sends : ℕ → Text → Task
  marks_connected : Task
  marks_disconnected : Task
  processes : Message → Task
  takes_meta : Text → Task
  closes : Task

-- `is_running` is whether there are the io_context, the strand and the thread.
pub record NetworkService : Type 0 where
  pub is_running : Bool
  pub is_guarded : Bool
  pub queue : List Task
  pub is_connecting : Bool
  pub has_session : Bool
  pub is_reading : Bool
  pub has_udp : Bool
  pub receiving : ℕ
  pub has_processor : Bool
  pub connected : Bool

-- A new service, and one that has disconnected.
abbrev pub idle : NetworkService
idle = record {
  is_running = false;
  is_guarded = false;
  queue = [];
  is_connecting = false;
  has_session = false;
  is_reading = false;
  has_udp = false;
  receiving = 0;
  has_processor = false;
  connected = false;
}

pub data Effect : Type 0 where
  marked : Bool → Effect
  message_sent : Message → Effect
  connected_called : Effect
  called : Call → Effect
  udp_started : Effect
  meta_expected : Text → Effect
  disconnect_returned : Effect

abbrev pub post : Task → NetworkService → NetworkService
post t s = record s { queue = s.queue ++ t ∷ [] }

-- `connect`, behind its call of `disconnect`.
unfoldable pub connect : NetworkService → NetworkService
connect s = if s.is_running then s else record s {
  is_running = true;
  is_guarded = true;
  has_processor = true;
  queue = resolves ∷ [];
}

unfoldable pub send : ℕ → Text → NetworkService → NetworkService
send type body s = if s.is_running then post (sends type body) s else s

-- `disconnect` up to its `join`; the strand is another thread's, so the closing is posted.
unfoldable pub begin_disconnect : NetworkService → NetworkService
begin_disconnect s = if s.is_running then record (post closes s) { is_guarded = false } else s

-- `run` returns when there is no work: no guard, no task, and no operation that is pending; a write is done at
-- once.
unfoldable pub is_out_of_work : NetworkService → Bool
is_out_of_work s =
    not s.is_guarded
    && (is_empty s.queue && (not s.is_connecting && (not s.is_reading && (s.receiving == 0))))

-- `join`, and the resets behind it; nothing happens while the thread runs on.
unfoldable pub join : NetworkService → NetworkService × List Effect
unfolding is_out_of_work
join s =
    if s.is_running && is_out_of_work s
    then (record idle { connected = s.connected }, disconnect_returned ∷ [])
    else (s, [])

abbrev pub message_of : ℕ → Text → Message
message_of type body = record { type = type; length = length body % 2 ^ 32; payload = body }

-- `has_connected_callback` and `callbacks` are the callbacks given to `connect`; `port_reply` is the body that
-- names the bound port.
module _ (has_connected_callback : Bool) (callbacks : NetworkCallbacks) (port_reply : Text) where
  -- The processor has the wrapped callbacks: `onImageMeta` is set, and posts.
  abbrev pub wrapped : NetworkCallbacks
  wrapped = record callbacks { has_image_meta = true }

  unfoldable pub take_call : Call → NetworkService → NetworkService × List Effect
  take_call (calls on_image_meta json) s = (post (takes_meta json) s, [])
  take_call (calls callback payload) s = (s, called (calls callback payload) ∷ [])

  unfoldable pub perform : List Call → NetworkService → NetworkService × List Effect
  unfolding take_call
  perform [] s = (s, [])
  perform (c ∷ cs) s =
      let (s', out) = take_call c s in let (s'', more) = perform cs s' in (s'', out ++ more)

  -- A task of the strand.
  unfoldable pub execute : Task → NetworkService → NetworkService × List Effect
  unfolding perform process_message send
  execute resolves s = (record s { is_connecting = true }, [])
  execute (sends type body) s =
      (s, if s.has_session && s.connected then message_sent (message_of type body) ∷ [] else [])
  execute marks_connected s = (
    record s { connected = true },
    marked true ∷ (if has_connected_callback then connected_called ∷ [] else []),
  )
  execute marks_disconnected s = (record s { connected = false }, marked false ∷ [])
  execute (processes msg) s =
      if s.has_processor then perform (process_message wrapped msg) s else (s, [])
  execute (takes_meta json) s =
      let started =
        if s.has_udp then s else record s { has_udp = true; receiving = suc s.receiving } in
      (
        send (type_code image) port_reply started,
        (if s.has_udp then [] else udp_started ∷ [])
            ++ (meta_expected json
                ∷ (if callbacks.has_image_meta
                    then called (calls on_image_meta json) ∷ []
                    else [])),
      )
  execute closes s = (
    record s { connected = false; has_session = false; has_udp = false; has_processor = false },
    marked false ∷ [],
  )

  pub data Event : Type 0 where
    connects begins_disconnect joins runs_task : Event
    asks_to_send : ℕ → Text → Event
    udp_control : Text → Event
    connecting_ends : Bool → Event
    handshake_done read_ends receive_fails : Event
    message_read : Message → Event

  unfoldable pub run_task : NetworkService → NetworkService × List Effect
  unfolding execute
  run_task s = elim s.queue [ [] ↦ (s, []) | t ∷ ts ↦ execute t (record s { queue = ts }) ]

  -- The result of `async_connect`: the new session starts to read.
  unfoldable pub end_connecting : Bool → NetworkService → NetworkService
  end_connecting ok s =
      if s.is_connecting
      then if ok
        then record s { is_connecting = false; has_session = true; is_reading = true }
        else record s { is_connecting = false }
      else s

  unfoldable pub step : Event → NetworkService → NetworkService × List Effect
  unfolding connect send begin_disconnect join run_task end_connecting
  step connects s = (connect s, [])
  step begins_disconnect s = (begin_disconnect s, [])
  step joins s = join s
  step runs_task s = run_task s
  step (asks_to_send type body) s = (send type body s, [])
  step (udp_control body) s = (if s.has_udp then send (type_code image) body s else s, [])
  step (connecting_ends ok) s = (end_connecting ok s, [])
  step handshake_done s = (if s.is_reading then post marks_connected s else s, [])
  step read_ends s =
      (if s.is_reading then post marks_disconnected (record s { is_reading = false }) else s, [])
  step receive_fails s = (record s { receiving = s.receiving - 1 }, [])
  step (message_read msg) s = (if s.is_reading then post (processes msg) s else s, [])

  unfoldable pub run : List Event → NetworkService → NetworkService × List Effect
  unfolding step
  run [] s = (s, [])
  run (e ∷ es) s = let (s', out) = step e s in let (s'', more) = run es s' in (s'', out ++ more)
