-- ===== src/Lib.antt =====
-- A model of the navigation stack of a humanoid robot: the planners' core, the nodes that bring velocities
-- to the robot's gait, and the smoothing of its joint commands.
--
-- The parts, and how they meet. A costmap is read through one small interface (Grid); it comes from an
-- external node (ExternalGrid), from the global layers (GlobalCostmap), or from the live cloud, the memory of
-- obstacles and the maps (GaussianGrid, PersistentMap, SlamFusion), which the A* node fuses (AStarNode); the
-- global planner's node (GlobalPlanner) gives it a route to follow. The A* planner (AStar, Plan) turns a
-- costmap, the robot's position and a goal into waypoints. The MPC node (MpcNode) smooths them and has its
-- tracker (MpcTracker) make velocities from them, unless a watchdog or the goal stops the robot. The
-- velocities reach the robot through one of two bridges (UnitreeBridge with its smoother Velocity and its
-- driver LocoDriver, or AmoBridge), which both obey the latched e-stop topic that a keyboard helper publishes
-- (EstopKeyboard). A joystick can take the tracker's place (JoyToCmdVel). Under the AMO gait, the policy's
-- joint targets pass a smoother on their way to the motors (Activation, JointFilters).
--
-- The files, and what they model:
--   Prelude: names of the libraries, Boolean tests, lists, integers and text, shared by all.
--   Float: the operations on floats that the code uses (Defs), with the laws that a proof may name, a
--     fixed-point implementation for tests (Fixed), and the trigonometric functions as parameters (Trig).
--   Grid: world_to_index, index_to_world and the fields of a cost grid, from
--     ros2_ws/src/a_star_mpc_planner/a_star_mpc_planner/external_grid_map.py.
--   AStar: _Node, _a_star, _is_free, _is_steppable, _cell_cost, _h and _extract_path of AStarPlanner in
--     a_star_planner.py beside it. `heapq` is a parameter, PriorityQueue; of it
--     the proofs use which entries a heap holds (IsQueue), and not the order in which it pops them.
--   Plan: _line_of_sight, _shortcut_path, _nearest_free, _ray_grid_boundary, _local_goal and plan there.
--   ExternalGrid: parse_costmap_raw and the constructor of ExternalGridMap in external_grid_map.py.
--   GlobalCostmap: the class of that name in global_costmap.py; an array is a function of the cell.
--   PersistentMap: PersistentOccupancyMap in persistent_map.py; its dictionary is an association list.
--   SlamFusion: extract_slam_obstacle_points in slam_map_utils.py.
--   GaussianGrid: FixedGaussianGridMap in gaussian_grid_map.py, over parameters for the distance transform
--     and the exponential; Queries has its lookups by coordinates.
--   AStarNode: AStarNode in a_star_node.py; Carrot chooses the target, Ground removes the ground plane from
--     a scan, Replan is the timer's callback. The transform and the random choices are inputs.
--   GlobalPlanner: GlobalPlannerNode in global_planner_node.py.
--   MpcNode: MPCNode in mpc_node.py beside it. Plane has the angles and vectors, Node the state with its
--     callbacks, Solve the timer's callback, whose part Drive runs with a pose, a fresh path and no goal
--     held. Security, Command, Setpoint, Smoothing, Clusters and Tracking are the parts that it calls.
--   MpcTracker: MPCTracker in mpc_tracker.py, over a parameter for IPOPT; Implementation fills the interface
--     of the node's tracker with it.
--   Velocity: VelocitySmoother in ros2_ws/src/g1_sim_bridge/g1_sim_bridge/unitree_loco.py, and _clip.
--   LocoDriver: LocoDriver in unitree_loco.py, over a parameter for the SDK, the clock and the sleep.
--   UnitreeBridge: the node of cmd_vel_to_unitree_loco_node.py; a handler maps the state to the state and
--     the commands that it sends. Node adds the bring-up thread and the shutdown.
--   AmoBridge: the node of cmd_vel_to_amo_node.py, in the same way.
--   EstopKeyboard: main of estop_keyboard_node.py, as a list of rounds of its loop.
--   JoyToCmdVel: the node of joy_to_cmdvel_node.py.
--   Activation, JointFilters: amo/activation_utils.py and amo/joint_filters.py.
--
-- Numbers. Floats are any type with the operations of Float; the theorems that need more name the laws of
-- IsOrdered, which IEEE arithmetic has on numbers, rounding included (NaN, infinities and the sign of zero
-- are left out, and single and double precision are one type). Indices are integers or natural numbers.
--
-- Fuel. The search gets 8 * cells^2 + 2 rounds, since a cell is expanded once and each expansion pushes at
-- most eight entries; the search for a free cell gets cells^2 + 1 rounds, since a cell is queued once; a line
-- of sight gets one round for each step of its longer side, and one more. The theorems about these functions
-- say that they do not run out. A search of the union-find gets as many steps as there are unions, since a
-- union deepens the forest by one at most. A wait of the driver polls as often as its argument allows, and
-- the theorem on its end says how often is enough, for a clock that passes the deadline.
--
-- Not modelled: ROS messages, topics and transforms, log lines, threads, markers for the display; the solver
-- of the optimisation problem; the contouring tracker; the policy network; the local voxel map with its
-- ground segmentation; the drivers and simulators. The order of the messages is the order of a list of
-- events.
pub mod Prelude
pub mod Float
pub mod Grid
pub mod AStar
pub mod Plan
pub mod ExternalGrid
pub mod GlobalCostmap
pub mod PersistentMap
pub mod SlamFusion
pub mod GaussianGrid
pub mod AStarNode
pub mod GlobalPlanner
pub mod MpcNode
pub mod MpcTracker
pub mod Velocity
pub mod LocoDriver
pub mod UnitreeBridge
pub mod AmoBridge
pub mod EstopKeyboard
pub mod JoyToCmdVel
pub mod Activation
pub mod JointFilters
