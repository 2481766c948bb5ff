-- ===== src/Notify.antt =====
-- retinue/notify.py: `Notifier`.
use the_retinue.Base.{nat_eq, list_eq, ok}
use the_retinue.Exec.{Exec, ◌>>◌}
use the_retinue.Github.{
  Notification, pushed_out, commented, labelled, PipelineState, PipelineSeams, call,
}

-- `_try_push`: what it raises is swallowed.
unfoldable pub try_push : PipelineSeams → Notification → Exec PipelineState (Unit {0})
unfolding call
try_push seams note s = (
  ok tt,
  (call (λ log. seams.push log note.title note.body) (pushed_out note.title note.body) s).1,
)

unfoldable pub post_comment : PipelineSeams → Notification → Exec PipelineState (Unit {0})
unfolding call
post_comment seams note =
    call (λ log. seams.comment log note.repo_full_name note.issue_number note.body)
      (commented note.repo_full_name note.issue_number note.body)

unfoldable pub apply_label : PipelineSeams → Notification → Exec PipelineState (Unit {0})
unfolding call
apply_label seams note =
    call (λ log. seams.label log note.repo_full_name note.issue_number note.label)
      (labelled note.repo_full_name note.issue_number note.label)

-- `Notifier.notify`
unfoldable pub notify : PipelineSeams → Notification → Exec PipelineState (Unit {0})
unfolding try_push post_comment apply_label
notify seams note = try_push seams note >> (post_comment seams note >> apply_label seams note)
