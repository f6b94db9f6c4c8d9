-- ===== src/Buffered/Examples.antt =====
-- A command that is queued and flushed.
use ferricstore_go.Base.{◌≡◌, refl, true, [], ◌∷◌, none, some, if◌then◌else◌}
use ferricstore_go.Buffered.Capacity.{
  Shapes, also, stop, text, byte_slice, interface, slice, retained_size, consume_value,
}
use ferricstore_go.Buffered.Sizes.{snapshot_cost, may_retain, retained_size-snapshot_cost}
use ferricstore_go.Buffered.Executor.{prepare, admit, take_batch, with_command, without_commands}
use ferricstore_go.Buffered.Flushing.{
  Buffered, new_buffered, prepares, with_queued, flushes_with, Step, snapshots, enqueues, flushes,
  Reachable, start, step, Sound,
}
use ferricstore_go.Buffered.Promises.{limits, Reachable-Sound}

abbrev set_command : Shapes
set_command =
    also (text 3) (also (byte_slice 5) (also (slice (also (interface (text 2)) stop)) stop))

retained_size-snapshot_cost_example :
    retained_size set_command 200
    ≡ (if may_retain set_command 200 then some (snapshot_cost set_command) else none)
retained_size-snapshot_cost_example = retained_size-snapshot_cost set_command 200

set_command_size : retained_size set_command 200 ≡ some 178
unfolding retained_size consume_value
set_command_size = refl

abbrev empty_buffer : Buffered
empty_buffer = new_buffered true 2 200

abbrev prepared : Buffered
prepared = prepares empty_buffer 178 set_command

abbrev queued : Buffered
queued = with_queued prepared (with_command prepared.executor 178 set_command) [] set_command

abbrev on_its_way : Buffered
on_its_way = flushes_with queued (without_commands queued.executor) (set_command ∷ [])

prepares_set : Step empty_buffer prepared
unfolding prepare retained_size consume_value
prepares_set = snapshots true true true set_command 178 refl

queues_set : Step prepared queued
unfolding admit
queues_set = enqueues true 178 set_command [] [] queued.executor refl refl

flushes_set : Step queued on_its_way
unfolding take_batch
flushes_set = flushes true on_its_way.executor set_command [] refl refl

on_its_way-Reachable : Reachable empty_buffer on_its_way
on_its_way-Reachable =
    step queued on_its_way
      (step prepared queued (step empty_buffer prepared start prepares_set) queues_set) flushes_set

Reachable-Sound_example : Sound on_its_way × (limits on_its_way ≡ limits empty_buffer)
Reachable-Sound_example = Reachable-Sound true 2 200 on_its_way on_its_way-Reachable
