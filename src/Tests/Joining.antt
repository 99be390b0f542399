-- ===== src/Tests/Joining.antt =====
-- A follower that joins a leader, at a concrete input.
use ethersync.Base.{◌≡◌, refl, ◌⊎◌, false, true, some, ok, err, arith}
use ethersync.Base.Int.{ℤ}
use ethersync.Native.{NativeError}
use ethersync.Timecode.Defs.{size}
use ethersync.Follower.Core.{eq_bytes, new}
use ethersync.Leader.Changes.{change_timeline}
use ethersync.Wire.Validate.{encode}
use ethersync.Timeline.Convert.{wire, anchor_wire}
use ethersync.Tracking.{is_tracked}
use ethersync.FollowerJob.Defs.{FollowerJob, new_job, fallback}
use ethersync.FollowerJob.Receive.{read_frame}
use ethersync.FollowerJob.Delivery.{Joined, read_frame-pass}
use ethersync.Leader.Job.{pass}
use ethersync.Tests.Leading.{settings, leading, leading-IsPublished, queue, pass_reads}
use ethersync.Tests.Following.{idle}
use ethersync.Tests.Samples.{decimal_float, frame_9-IsPosition}
use ethersync.Tests.Serial.{plain, plain-IsFaithful}

-- A follower that has a frame to receive.
abbrev joining : FollowerJob ℤ
joining = record idle { has_group = true; has_frame = true }

other_recording :
    eq_bytes joining.core.view.timeline.session
      (pass plain settings leading queue pass_reads).2.timeline.session
    ≡ false
unfolding pass new_job fallback eq_bytes new change_timeline encode wire is_tracked anchor_wire
other_recording = refl

read_frame-pass_example :
    ((pass plain settings leading queue pass_reads).0 ≡ err (NativeError.protocol size))
    ⊎ Joined (pass plain settings leading queue pass_reads).2.timeline (
        read_frame plain joining
          (some (ok (pass plain settings leading queue pass_reads).2.bytes))
          70)
unfolding new_job new
read_frame-pass_example =
    read_frame-pass plain settings leading queue pass_reads 1_500_000_000 joining 70
      plain-IsFaithful refl leading-IsPublished
      (omega arith, tt, (omega arith, frame_9-IsPosition, (omega arith, refl, omega arith)))
      (omega arith) (omega arith) refl refl other_recording
