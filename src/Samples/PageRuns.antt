-- ===== src/Samples/PageRuns.antt =====
-- Two tasks, shown on pages of one.
use samdi.Common.{◌≤◌, ◌≡◌, refl, none, some, length, arith}
use samdi.ControlPlane.Tasks.{create_task}
use samdi.ControlPlane.Tasks.Refinement.{after}
use samdi.ControlPlane.Tasks.History.{run}
use samdi.ControlPlane.Tasks.Listing.{ListOptions, view_active, list_tasks}
use samdi.ControlPlane.Tasks.Pages.{pages, all_listed, pages_show_all}
use samdi.Samples.DeliveryRuns.{created}

abbrev one_by_one : ListOptions
one_by_one = record { status = none; view = view_active; limit = some 1; offset = none }

two_in_all : (list_tasks one_by_one created).1 ≡ 2
unfolding run after create_task list_tasks
two_in_all = refl

pages_show_all_example :
    (pages 2 0 one_by_one created ≡ all_listed one_by_one created)
    × (length (list_tasks one_by_one created).0 ≤ 200)
    × ((list_tasks one_by_one created).1 ≡ length (all_listed one_by_one created))
pages_show_all_example = pages_show_all 2 one_by_one created (omega (arith, two_in_all))
