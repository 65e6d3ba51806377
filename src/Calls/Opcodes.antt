-- ===== src/Calls/Opcodes.antt =====
-- include/gles_bridge_protocol.h: the opcodes of the calls.
use webos_bridge_64to.Common.{ℕ}

abbrev pub op_gl_active_texture : ℕ
op_gl_active_texture = 1

abbrev pub op_gl_bind_texture : ℕ
op_gl_bind_texture = 2

abbrev pub op_gl_copy_tex_image_2d : ℕ
op_gl_copy_tex_image_2d = 9

abbrev pub op_gl_copy_tex_sub_image_2d : ℕ
op_gl_copy_tex_sub_image_2d = 10

abbrev pub op_gl_generate_mipmap : ℕ
op_gl_generate_mipmap = 17

abbrev pub op_gl_pixel_storei : ℕ
op_gl_pixel_storei = 18

abbrev pub op_gl_bind_renderbuffer : ℕ
op_gl_bind_renderbuffer = 34

abbrev pub op_gl_renderbuffer_storage : ℕ
op_gl_renderbuffer_storage = 35

abbrev pub op_gl_delete_shader : ℕ
op_gl_delete_shader = 38

abbrev pub op_gl_compile_shader : ℕ
op_gl_compile_shader = 40

abbrev pub op_gl_release_shader_compiler : ℕ
op_gl_release_shader_compiler = 45

abbrev pub op_gl_delete_program : ℕ
op_gl_delete_program = 48

abbrev pub op_gl_attach_shader : ℕ
op_gl_attach_shader = 49

abbrev pub op_gl_detach_shader : ℕ
op_gl_detach_shader = 50

abbrev pub op_gl_link_program : ℕ
op_gl_link_program = 51

abbrev pub op_gl_use_program : ℕ
op_gl_use_program = 52

abbrev pub op_gl_validate_program : ℕ
op_gl_validate_program = 53

abbrev pub op_gl_viewport : ℕ
op_gl_viewport = 99

abbrev pub op_gl_scissor : ℕ
op_gl_scissor = 100

abbrev pub op_gl_enable : ℕ
op_gl_enable = 101

abbrev pub op_gl_disable : ℕ
op_gl_disable = 102

abbrev pub op_gl_cull_face : ℕ
op_gl_cull_face = 104

abbrev pub op_gl_front_face : ℕ
op_gl_front_face = 105

abbrev pub op_gl_line_width : ℕ
op_gl_line_width = 106

abbrev pub op_gl_polygon_offset : ℕ
op_gl_polygon_offset = 107

abbrev pub op_gl_sample_coverage : ℕ
op_gl_sample_coverage = 108

abbrev pub op_gl_hint : ℕ
op_gl_hint = 109

abbrev pub op_gl_blend_color : ℕ
op_gl_blend_color = 110

abbrev pub op_gl_blend_equation : ℕ
op_gl_blend_equation = 111

abbrev pub op_gl_blend_equation_separate : ℕ
op_gl_blend_equation_separate = 112

abbrev pub op_gl_blend_func : ℕ
op_gl_blend_func = 113

abbrev pub op_gl_blend_func_separate : ℕ
op_gl_blend_func_separate = 114

abbrev pub op_gl_depth_func : ℕ
op_gl_depth_func = 115

abbrev pub op_gl_depth_mask : ℕ
op_gl_depth_mask = 116

abbrev pub op_gl_depth_rangef : ℕ
op_gl_depth_rangef = 117

abbrev pub op_gl_color_mask : ℕ
op_gl_color_mask = 118

abbrev pub op_gl_stencil_func : ℕ
op_gl_stencil_func = 119

abbrev pub op_gl_stencil_func_separate : ℕ
op_gl_stencil_func_separate = 120

abbrev pub op_gl_stencil_mask : ℕ
op_gl_stencil_mask = 121

abbrev pub op_gl_stencil_mask_separate : ℕ
op_gl_stencil_mask_separate = 122

abbrev pub op_gl_stencil_op : ℕ
op_gl_stencil_op = 123

abbrev pub op_gl_stencil_op_separate : ℕ
op_gl_stencil_op_separate = 124

abbrev pub op_gl_clear : ℕ
op_gl_clear = 125

abbrev pub op_gl_clear_color : ℕ
op_gl_clear_color = 126

abbrev pub op_gl_clear_depthf : ℕ
op_gl_clear_depthf = 127

abbrev pub op_gl_clear_stencil : ℕ
op_gl_clear_stencil = 128

abbrev pub op_gl_flush : ℕ
op_gl_flush = 136

abbrev pub op_gl_vertex_attrib_i4i : ℕ
op_gl_vertex_attrib_i4i = 185

abbrev pub op_gl_vertex_attrib_i4ui : ℕ
op_gl_vertex_attrib_i4ui = 187

abbrev pub op_gl_draw_arrays_instanced : ℕ
op_gl_draw_arrays_instanced = 190

abbrev pub op_gl_begin_query : ℕ
op_gl_begin_query = 198

abbrev pub op_gl_end_query : ℕ
op_gl_end_query = 200

abbrev pub op_gl_bind_sampler : ℕ
op_gl_bind_sampler = 205

abbrev pub op_gl_sampler_parameterf : ℕ
op_gl_sampler_parameterf = 211

abbrev pub op_gl_sampler_parameteri : ℕ
op_gl_sampler_parameteri = 213

abbrev pub op_gl_begin_transform_feedback : ℕ
op_gl_begin_transform_feedback = 215

abbrev pub op_gl_bind_buffer_base : ℕ
op_gl_bind_buffer_base = 216

abbrev pub op_gl_bind_transform_feedback : ℕ
op_gl_bind_transform_feedback = 218

abbrev pub op_gl_end_transform_feedback : ℕ
op_gl_end_transform_feedback = 220

abbrev pub op_gl_pause_transform_feedback : ℕ
op_gl_pause_transform_feedback = 224

abbrev pub op_gl_resume_transform_feedback : ℕ
op_gl_resume_transform_feedback = 225

abbrev pub op_gl_uniform1ui : ℕ
op_gl_uniform1ui = 228

abbrev pub op_gl_uniform2ui : ℕ
op_gl_uniform2ui = 230

abbrev pub op_gl_uniform3ui : ℕ
op_gl_uniform3ui = 232

abbrev pub op_gl_uniform4ui : ℕ
op_gl_uniform4ui = 234

abbrev pub op_gl_uniform_block_binding : ℕ
op_gl_uniform_block_binding = 241

abbrev pub op_gl_copy_tex_sub_image_3d : ℕ
op_gl_copy_tex_sub_image_3d = 244

abbrev pub op_gl_tex_storage_3d : ℕ
op_gl_tex_storage_3d = 247

abbrev pub op_gl_color_maski : ℕ
op_gl_color_maski = 249

abbrev pub op_gl_disablei : ℕ
op_gl_disablei = 250

abbrev pub op_gl_enablei : ℕ
op_gl_enablei = 251

abbrev pub op_gl_blit_framebuffer : ℕ
op_gl_blit_framebuffer = 267

abbrev pub op_gl_renderbuffer_storage_multisample : ℕ
op_gl_renderbuffer_storage_multisample = 269

abbrev pub op_gl_bind_image_texture : ℕ
op_gl_bind_image_texture = 270

abbrev pub op_gl_pop_debug_group : ℕ
op_gl_pop_debug_group = 277

abbrev pub op_gl_clear_bufferfi : ℕ
op_gl_clear_bufferfi = 278

abbrev pub op_gl_copy_image_sub_data : ℕ
op_gl_copy_image_sub_data = 282

abbrev pub op_gl_dispatch_compute : ℕ
op_gl_dispatch_compute = 283

abbrev pub op_gl_memory_barrier : ℕ
op_gl_memory_barrier = 301

abbrev pub op_gl_memory_barrier_by_region : ℕ
op_gl_memory_barrier_by_region = 302

abbrev pub op_gl_min_sample_shading : ℕ
op_gl_min_sample_shading = 303

abbrev pub op_gl_program_parameteri : ℕ
op_gl_program_parameteri = 307

abbrev pub op_gl_read_buffer : ℕ
op_gl_read_buffer = 309

abbrev pub op_gl_tex_buffer : ℕ
op_gl_tex_buffer = 313

abbrev pub op_gl_tex_storage_2d_multisample : ℕ
op_gl_tex_storage_2d_multisample = 317

abbrev pub op_gl_tex_storage_3d_multisample : ℕ
op_gl_tex_storage_3d_multisample = 318

abbrev pub op_gl_primitive_bounding_box : ℕ
op_gl_primitive_bounding_box = 319

abbrev pub op_gl_active_shader_program : ℕ
op_gl_active_shader_program = 320

abbrev pub op_gl_bind_program_pipeline : ℕ
op_gl_bind_program_pipeline = 321

abbrev pub op_gl_use_program_stages : ℕ
op_gl_use_program_stages = 332

abbrev pub op_gl_validate_program_pipeline : ℕ
op_gl_validate_program_pipeline = 333

abbrev pub op_gl_blend_barrier : ℕ
op_gl_blend_barrier = 334

abbrev pub op_gl_patch_parameteri : ℕ
op_gl_patch_parameteri = 339
