-- ===== src/Cia/Serial.antt =====
-- src/c64/CIA/SerialPort.h and SerialPort.cpp: the serial port of a CIA. `m_parent.spInterrupt()` is
-- the parent's part of the port's own event.
use libsidplayfp.Base.{
  ℕ, zero, suc, ◌+◌, ◌-◌, ◌*◌, ◌%◌, ◌^◌, bit_and, bit_or, bit_xor, Bool, true, false, not, ◌&&◌,
  ◌||◌, ◌==◌, ◌!=◌, if◌then◌else◌,
}
use libsidplayfp.EventQueue.{
  EventId, Context, phi1, get_time, is_pending, schedule, cancel, trigger_after,
}

-- `flip_cnt_time` is the trigger time that `flipCntEvent` keeps, pending or not.
pub record SerialPort : Type 0 where
  pub last_sync : ℕ
  pub count : ℕ
  pub cnt : ℕ
  pub cnt_history : ℕ
  pub loaded : Bool
  pub pending : Bool
  pub force_finish : Bool
  pub model4485 : Bool
  pub flip_cnt_time : ℕ

pub record Events : Type 0 where
  pub self : EventId
  pub flip_cnt_event : EventId
  pub flip_fake_event : EventId
  pub start_sdr_event : EventId

-- The port with the scheduler.
pub record Machine : Type 0 where
  pub this : SerialPort
  pub context : Context

unfoldable pub set_model4485 : Bool → SerialPort → SerialPort
set_model4485 is4485 s = record s { model4485 = is4485 }

unfoldable pub reset : Machine → Machine
reset m = record m {
  this = record m.this {
    count = 0;
    cnt_history = 0;
    cnt = 1;
    loaded = false;
    pending = false;
    force_finish = false;
    last_sync = get_time phi1 m.context;
  };
}

-- The loop of `syncCntHistory`, in 8 bits
unfoldable pub shift_history : (clocks cnt cnt_history : ℕ) → ℕ
shift_history zero cnt cnt_history = cnt_history
shift_history (suc clocks) cnt cnt_history =
    shift_history clocks cnt (bit_or (cnt_history * 2 % 2 ^ 8) cnt)

unfoldable pub sync_cnt_history : Machine → Machine
sync_cnt_history m =
    let time = get_time phi1 m.context in
    record m {
      this = record m.this {
        last_sync = time;
        cnt_history = shift_history (time - m.this.last_sync) m.this.cnt m.this.cnt_history;
      };
    }

-- `doStartSdr`
unfoldable pub do_start_sdr : SerialPort → SerialPort
do_start_sdr s = if s.loaded then record s { pending = true } else record s { loaded = true }

module _ (ids : Events) where
  unfoldable pub start_sdr : Machine → Machine
  start_sdr m = record m { context = schedule ids.start_sdr_event 1 m.context }

  -- `forceFinish` when the port turns to input
  unfoldable pub must_finish : Machine → Bool
  must_finish m =
      let s = m.this in
      let cnt_val = if s.model4485 then 0x7 else 0x6 in
      (bit_and s.cnt_history cnt_val != cnt_val)
      || ((s.count != 2) && (s.flip_cnt_time == m.context.now + 1))

  unfoldable pub switch_serial_direction : Bool → Machine → Machine
  switch_serial_direction input m =
      let m1 = sync_cnt_history m in
      let c1 =
        if not input && m1.this.force_finish
        then schedule ids.self 2 (cancel ids.self m1.context)
        else m1.context in
      record {
        this = record m1.this {
          force_finish = if input then must_finish m1 else false;
          cnt = 1;
          cnt_history = bit_or m1.this.cnt_history 1;
          count = 0;
          loaded = false;
          pending = false;
        };
        context = cancel ids.flip_fake_event (cancel ids.flip_cnt_event c1);
      }

  unfoldable pub handle : Machine → Machine
  handle m =
      let count = if m.this.loaded && (m.this.count == 0) then 16 else m.this.count in
      let c = m.context in
      let waiting =
        is_pending ids.flip_fake_event c.queue || is_pending ids.flip_cnt_event c.queue in
      let fake : Machine = record {
        this = record m.this { count = count };
        context = schedule ids.flip_fake_event 2 (cancel ids.flip_fake_event c);
      } in
      let flip : Machine = record {
        this = record m.this { count = count; flip_cnt_time = trigger_after c.now 2 };
        context = schedule ids.flip_cnt_event 2 c;
      } in
      if count == 0 then m else if waiting then fake else flip

  -- `flipFake` does nothing.
  unfoldable pub flip_cnt : Machine → Machine
  flip_cnt m =
      let m1 = sync_cnt_history m in
      let s = m1.this in
      let flipped : SerialPort = record s { cnt = bit_xor s.cnt 1; count = s.count - 1 } in
      if m.this.count == 0
      then m
      else if s.count - 1 == 1
      then record {
        this = record flipped { loaded = s.pending; pending = false };
        context = schedule ids.self 2 (cancel ids.self m1.context);
      }
      else record m1 { this = flipped }
