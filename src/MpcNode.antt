-- ===== src/MpcNode.antt =====
-- `MPCNode` of ros2_ws/src/a_star_mpc_planner/a_star_mpc_planner/mpc_node.py. The children model its parts:
-- the angles and vectors of the plane (Plane), the debounced security check (Security), the velocity
-- commands (Command), the setpoint (Setpoint), the smoothing of the path (Smoothing), the clusters of the
-- obstacles and their tracking (Clusters, Tracking), the state with its callbacks (Node), and the solve
-- timer (Solve).
pub mod Plane
pub mod Security
pub mod Command
pub mod Setpoint
pub mod Smoothing
pub mod Clusters
pub mod Tracking
pub mod Node
pub mod Solve
mod Tests
